-- ===== src/NetlinkSocket.antt =====
-- bf-link/netlinksocket.cpp: the socket of a client, on libnl. What nl_recv, nl_send_simple, nl_connect
-- and the allocations give are arguments; nlmsg_ok, nlmsg_next and the length in a header are libnl's,
-- on the bytes that are left of a buffer. The socket is built without NL_THREAD, as bf-link/bf-link.pro
-- has it: a notifier of the socket's descriptor calls readyRead.
pub mod Buffers
pub mod Closed
use bf.Base.{
  ℕ, zero, suc, ◌+◌, ◌*◌, ◌/◌, ltb, Bool, true, false, not, ◌&&◌, List, [], ◌∷◌, Option, none, some,
  length, take, if◌then◌else◌, map,
}
use bf.Client.{Result, returned, failed}

-- `nlmsg_len` is the field of the header that the bytes start with.
pub record Libnl : Type 0 where
  pub nlmsg_ok : List ℕ → Bool
  pub nlmsg_len : List ℕ → ℕ
  pub nlmsg_next : List ℕ → List ℕ

pub data Signal : Type 0 where
  sig_data : List ℕ → Signal
  sig_error : Result → Signal

-- The loop of readyRead over a buffer, on fuel: the byte arrays that it emits.
unfoldable pub split : Libnl → ℕ → List ℕ → List (List ℕ)
split l zero hdr = []
split l (suc fuel) hdr =
    let rest = split l fuel (l.nlmsg_next hdr) in
    if l.nlmsg_ok hdr
    then if ltb 0 (l.nlmsg_len hdr) then take (l.nlmsg_len hdr) hdr ∷ rest else rest
    else []

-- A socket: `nl_socket` tells of `nlSocket` whether it is there, and then whether it is connected.
pub record NetlinkSocket : Type 0 where
  pub nl_socket : Option Bool
  pub init : Bool

-- The constructor
abbrev pub new_socket : NetlinkSocket
new_socket = record { nl_socket = none; init = false }

-- NetlinkSocketPrivate::create
unfoldable pub create_private : Bool → NetlinkSocket → NetlinkSocket × Result
create_private alloc_ok s =
    if alloc_ok
    then (record s { nl_socket = some false }, returned 0)
    else (record s { nl_socket = none }, failed 1)

-- NetlinkSocketPrivate::connect, with the result of nl_connect
unfoldable pub connect_private : Result → NetlinkSocket → NetlinkSocket × Result
connect_private r s = elim s.nl_socket [
  | none ↦ (s, failed 1)
  | some c ↦ elim r [
    | returned zero ↦ (record s { nl_socket = some true }, returned 0)
    | r' ↦ (s, r')
  ]
]

-- What create does with the result of the connection.
unfoldable pub connected : NetlinkSocket × Result → NetlinkSocket × Result × List Signal
connected (s, returned zero) = (record s { init = true }, returned 0, [])
connected (s, r) = (s, r, sig_error r ∷ [])

-- create
unfoldable pub create : Bool → Result → NetlinkSocket → NetlinkSocket × Result × List Signal
unfolding create_private connect_private connected
create alloc_ok r s =
    let (s', ret) = create_private alloc_ok s in
    let opened : NetlinkSocket × Result × List Signal = elim ret [
      | returned zero ↦ connected (connect_private r s')
      | ret' ↦ (s', ret', [])
    ] in
    if s.init then (s, returned 0, []) else opened

-- close, as it is built with libnl 3
unfoldable pub close : NetlinkSocket → NetlinkSocket
close s = record s { nl_socket = none }

-- sendMsg, with the result of nl_send_simple
unfoldable pub send_msg : Result → NetlinkSocket → Result
send_msg r s = elim s.nl_socket [ none ↦ failed 1 | some c ↦ r ]

-- What recv gives: a buffer of some length above 0, or a result of 0 or below.
pub data Recv : Type 0 where
  got : ℕ → List ℕ → Recv
  got_none : Result → Recv

unfoldable pub recv : Recv → NetlinkSocket → Recv
recv r s = elim s.nl_socket [ none ↦ got_none (failed 1) | some c ↦ r ]

-- readyRead
unfoldable pub ready_read : Libnl → Recv → NetlinkSocket → List Signal
unfolding recv split
ready_read l r s = elim (recv r s) [
  | got b buf ↦ map sig_data (split l (suc (length (b ∷ buf))) (b ∷ buf))
  | got_none ret ↦ sig_error ret ∷ []
]
