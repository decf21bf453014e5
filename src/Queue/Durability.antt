-- ===== src/Queue/Durability.antt =====
-- Crash safety of `atomicWriteFile` in queue/mail_queue.cpp.
use email_server_backend.Base.{◌≡◌, false, ◌&&◌, [], arith, Bytes, All, if◌then◌else◌, some}
use email_server_backend.Queue.Disk.{
  Dir, FilePath, File, Disk, read, write, remove, exists, path_eq, path_eq_iff, read-remove,
  read-write,
}
use email_server_backend.Queue.Ops.{Machine, message_path, temp_path, atomic_write_file}

module _ (dir : Dir) (id : Bytes) where
  abbrev target : FilePath
  target = message_path dir id

  temp_ne_target : path_eq (temp_path target) target ≡ false
  unfolding path_eq
  temp_ne_target = ground arith

  read_temp :
      (q : FilePath) (f : File) (d : Disk)
      → path_eq (temp_path target) q ≡ false
      → read q (write (temp_path target) f d) ≡ read q d
  read_temp q f d n = ground (arith, read-write (temp_path target) q f d)

  read_temp_removed :
      (q : FilePath) (f : File) (d : Disk)
      → path_eq (temp_path target) q ≡ false
      → read q (remove (temp_path target) (write (temp_path target) f d)) ≡ read q d
  read_temp_removed q f d n =
      ground
        (arith, read-remove (temp_path target) q (write (temp_path target) f d), read_temp q f d)

  read_replaced :
      (q : FilePath) (f g : File) (d : Disk)
      → path_eq (temp_path target) q ≡ false
      → read q (write target g (remove (temp_path target) (write (temp_path target) f d)))
        ≡ (if path_eq target q then some g else read q d)
  read_replaced q f g d n = ground (
    arith,
    read-write target q g (remove (temp_path target) (write (temp_path target) f d)),
    read_temp_removed q f d n,
  )

  -- A write of a message file is atomic: at every path but that of the temporary file, each disk
  -- that the write goes through holds what the first one holds, and so does the last one, except
  -- that the message file has its new content there exactly if the write reports success.
  pub atomic_write_file_lem :
      (m : Machine) (content : Bytes) (d : Disk) (q : FilePath)
      → path_eq (temp_path target) q ≡ false
      → let w = atomic_write_file m target content d in
        All (λ x. read q x ≡ read q d) w.passed
        × (read q w.disk ≡ (
            if w.ok && path_eq target q
            then some (record { content = content; written = m.now })
            else read q d))
  unfolding atomic_write_file exists
  atomic_write_file_lem m content d q n =
      let empty : File = record { content = []; written = m.now } in
      let full : File = record { content = content; written = m.now } in
      ground (
        arith,
        read_temp q empty d n,
        read_temp q full d n,
        read_temp_removed q empty d n,
        read_temp_removed q full d n,
        read_replaced q full full d n,
        read_replaced target full full d temp_ne_target,
        path_eq_iff target target,
      )
