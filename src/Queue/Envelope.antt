-- ===== src/Queue/Envelope.antt =====
-- The text of a queued message in queue/mail_queue.cpp: `enqueue` writes FROM and TO lines before
-- the raw message, and `fetchReady` finds them again by searching the whole text.
use email_server_backend.Base.{
  ℕ, ◌+◌, ◌-◌, ◌||◌, [], ◌∷◌, ◌++◌, Bytes, text, length, find, find_from, substr, reverse, ◌==◌,
  if◌then◌else◌, none, some,
}

-- The content that `enqueue` builds.
unfoldable pub queued_text : Bytes → Bytes → Bytes → Bytes
queued_text from to raw =
    text "FROM: "
    ++ (from ++ (text "\n" ++ (text "TO: " ++ (to ++ (text "\n" ++ (text "---RAW---\n" ++ raw))))))

-- while (!s.empty() && (s.back() == ' ' || s.back() == '\r')) s.pop_back();
unfoldable pub drop_blanks : Bytes → Bytes
drop_blanks [] = []
drop_blanks (c ∷ cs) = let rest = drop_blanks cs in if c == b' ' || c == b'\r' then rest else c ∷ cs

unfoldable pub trim_end : Bytes → Bytes
unfolding drop_blanks
trim_end s = reverse (drop_blanks (reverse s))

-- The text from behind `key` up to the end of its line; empty where there is no such line.
unfoldable pub line_after : Bytes → Bytes → Bytes
line_after key raw = elim (find key raw) [
  | none ↦ []
  | some pos ↦ elim (find_from (text "\n") raw pos) [
    | none ↦ []
    | some end ↦ trim_end (substr raw (pos + length key) (end - pos - length key))
  ]
]

-- struct QueueMessage; the times are left at their default by all code.
pub record QueueMessage : Type 0 where
  pub id : Bytes
  pub from : Bytes
  pub to : Bytes
  pub raw_data : Bytes
  pub retry_count : ℕ
  pub enqueued_at : ℕ
  pub next_retry_at : ℕ

unfoldable pub parse_message : Bytes → Bytes → QueueMessage
unfolding line_after
parse_message id raw = record {
  id = id;
  from = line_after (text "FROM: ") raw;
  to = line_after (text "TO: ") raw;
  raw_data = raw;
  retry_count = 0;
  enqueued_at = 0;
  next_retry_at = 0;
}
