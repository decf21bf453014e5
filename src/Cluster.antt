-- ===== src/Cluster.antt =====
-- The distributed authentication manager of core/distributed_auth_manager.cpp: users and sessions
-- under the keys of a cluster, in maps that stand for its Redis server.
mod Keys
mod Manager
mod Users
mod Sessions
mod Loading
mod KeyLaws
mod UserLaws
mod SessionLaws
mod Refinement
mod Expiry
mod Listings
mod Tests
