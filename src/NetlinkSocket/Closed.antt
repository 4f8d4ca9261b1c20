-- ===== src/NetlinkSocket/Closed.antt =====
-- A socket that has been closed.
use mathlib.Core.Path.{subst}
use bf.Base.{sym, if_cases, arith, ◌≡◌, refl, Bool, true, List, [], ◌∷◌, Option, none, some}
use bf.Client.{Result, returned, failed}
use bf.NetlinkSocket.{
  Libnl, NetlinkSocket, create, close, send_msg, recv, ready_read, Recv, Signal, sig_error,
}

-- The calls of a socket, with what libnl answers.
pub data Call : Type 0 where
  create_call : Bool → Result → Call
  send_call : Result → Call
  read_call : Recv → Call
  close_call : Call

-- The socket, the result of a create or sendMsg, and the signals.
unfoldable pub call : Libnl → NetlinkSocket → Call → NetlinkSocket × Option Result × List Signal
call l s (create_call alloc_ok r) =
    let (s', ret, signals) = create alloc_ok r s in (s', some ret, signals)
call l s (send_call r) = (s, some (send_msg r s), [])
call l s (read_call r) = (s, none, ready_read l r s)
call l s close_call = (close s, none, [])

unfoldable pub calls : Libnl → NetlinkSocket → List Call → NetlinkSocket
unfolding call
calls l s [] = s
calls l s (c ∷ cs) = calls l (call l s c).0 cs

pub record IsClosed (s : NetlinkSocket) : Type 0 where
  pub gone : s.nl_socket ≡ none
  pub marked : s.init ≡ true

create-init :
    (alloc_ok : Bool) (r : Result) (s : NetlinkSocket)
    → s.init ≡ true
    → create alloc_ok r s ≡ (s, returned 0, [])
unfolding create
create-init alloc_ok r s e =
    if_cases (λ (x : NetlinkSocket × Result × List Signal). x ≡ (s, returned 0, [])) s.init
      (λ e'. refl) (λ e'. absurd (ground arith))

call-IsClosed : (l : Libnl) (s : NetlinkSocket) (c : Call) → IsClosed s → IsClosed (call l s c).0
unfolding call close
call-IsClosed l s (create_call alloc_ok r) h =
    subst (λ (x : NetlinkSocket × Result × List Signal). IsClosed x.0)
      (sym (create-init alloc_ok r s h.marked)) h
call-IsClosed l s (send_call r) h = h
call-IsClosed l s (read_call r) h = h
call-IsClosed l s close_call h = record { gone = refl; marked = h.marked }

calls-IsClosed :
    (l : Libnl) (s : NetlinkSocket) (cs : List Call) → IsClosed s → IsClosed (calls l s cs)
unfolding calls
calls-IsClosed l s [] h = h
calls-IsClosed l s (c ∷ cs) h = calls-IsClosed l (call l s c).0 cs (call-IsClosed l s c h)

close-IsClosed : (s : NetlinkSocket) → s.init ≡ true → IsClosed (close s)
unfolding close
close-IsClosed s e = record { gone = refl; marked = e }

module _ (s : NetlinkSocket) (h : IsClosed s) where
  send_msg-IsClosed : (r : Result) → send_msg r s ≡ failed 1
  unfolding send_msg
  send_msg-IsClosed r = rw h.gone

  ready_read-IsClosed : (l : Libnl) (b : Recv) → ready_read l b s ≡ sig_error (failed 1) ∷ []
  unfolding ready_read recv
  ready_read-IsClosed l b = rw h.gone

-- Once a socket that was opened has been closed, it stays closed, whatever is called then and whatever
-- libnl answers: a create returns 0 and changes nothing, every sendMsg fails, and every readyRead emits
-- an error and no data.
pub close-calls :
    (l : Libnl) (s : NetlinkSocket) (cs : List Call) (alloc_ok : Bool) (r : Result) (b : Recv)
    → s.init ≡ true
    → let t = calls l (close s) cs in
      (t.nl_socket ≡ none)
      × (create alloc_ok r t ≡ (t, returned 0, []))
      × (send_msg r t ≡ failed 1)
      × (ready_read l b t ≡ sig_error (failed 1) ∷ [])
close-calls l s cs alloc_ok r b e =
    let t = calls l (close s) cs in
    let h = calls-IsClosed l (close s) cs (close-IsClosed s e) in
    (
      h.gone,
      create-init alloc_ok r t h.marked,
      send_msg-IsClosed t h r,
      ready_read-IsClosed t h l b,
    )
