-- ===== src/Smtp/Trace.antt =====
-- What the trace of a session tells: the messages handed to the store, how often the socket was
-- closed, and how often the rate limiter was told that the connection is over.
use email_server_backend.Base.{ℕ, suc, ◌≡◌, refl, List, [], ◌∷◌, arith, Bytes}
use email_server_backend.Smtp.Link.{
  Link, Event, stores, closes, releases, StoredMessage, send_line, send_multiline_response,
}
use email_server_backend.Smtp.Session.{Session, Env}
use email_server_backend.Smtp.Message.{handle_data}
use email_server_backend.Smtp.Data.{
  DataReport, no_recipient, rejected, accepted, not_stored, store_failed, handle_data-DataReport,
}

abbrev pub stored_in : List Event → List StoredMessage
stored_in [] = []
stored_in (stores msg ∷ t) = msg ∷ stored_in t
stored_in (_ ∷ t) = stored_in t

abbrev pub closes_in : List Event → ℕ
closes_in [] = 0
closes_in (closes ∷ t) = suc (closes_in t)
closes_in (_ ∷ t) = closes_in t

abbrev pub releases_in : List Event → ℕ
releases_in [] = 0
releases_in (releases ip ∷ t) = suc (releases_in t)
releases_in (_ ∷ t) = releases_in t

pub record Quiet (t t' : List Event) : Type 0 where
  pub no_store : stored_in t' ≡ stored_in t
  pub no_close : closes_in t' ≡ closes_in t
  pub no_release : releases_in t' ≡ releases_in t

-- The link is the same but for lines sent.
pub record Spoke (l l' : Link) : Type 0 where
  pub same_tls : l'.tls_active ≡ l.tls_active
  pub same_open : l'.is_open ≡ l.is_open
  pub same_input : l'.input ≡ l.input
  pub quiet : Quiet l.trace l'.trace

pub send_multiline_response-Spoke :
    (lines : List Bytes) (l : Link) → Spoke l (send_multiline_response lines l)
unfolding send_multiline_response send_line
send_multiline_response-Spoke [] l = ground arith
send_multiline_response-Spoke (last ∷ []) l = ground arith
send_multiline_response-Spoke (line ∷ next ∷ rest) l =
    let k = send_multiline_response-Spoke (next ∷ rest) _ in
    record {
      same_tls = k.same_tls;
      same_open = k.same_open;
      same_input = k.same_input;
      quiet = record {
        no_store = k.quiet.no_store;
        no_close = k.quiet.no_close;
        no_release = k.quiet.no_release;
      };
    }

abbrev Modest : List Event → List Event → Type 0
Modest t t' = (closes_in t' ≡ closes_in t) × (releases_in t' ≡ releases_in t)

DataReport-Modest :
    {env : Env} {s : Session} {t : List Event} → DataReport env s t → Modest s.trace t
DataReport-Modest (no_recipient t r e) = rw e (refl, refl)
DataReport-Modest (rejected l t i o e) = rw e (ground arith)
DataReport-Modest (accepted msg id l t h o n e) = rw e (ground (arith, h.invited))
DataReport-Modest (not_stored msg id l t h o n e) = rw e (ground (arith, h.invited))
DataReport-Modest (store_failed msg l t h o e) = rw e (ground (arith, h.invited))

-- DATA neither closes the socket nor releases the connection.
pub handle_data-Modest : (env : Env) (s : Session) → Modest s.trace (handle_data env s).trace
handle_data-Modest env s = DataReport-Modest (handle_data-DataReport env s)
