-- ===== src/Ha.antt =====
-- High availability under ha/: the election by a lock on a file, the controller of a node, and any
-- number of nodes that run it side by side.
mod Election
mod Controller
mod Nodes
mod Exclusion
mod StaleLeader
mod Tests
