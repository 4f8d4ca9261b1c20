-- ===== src/Local/Socket/Sending.antt =====
-- What a client's socket writes.
use bf.Base.{
  ◌≡◌, sym, ap, ◌∙◌, true, false, List, [], ◌∷◌, ◌++◌, append_assoc, append-nil, map, length,
}
use bf.Base.Bytes.{le32}
use bf.Frames.{write_frame}
use bf.Frames.Sizes.{encode}
use bf.Client.{Result, returned, failed}
use bf.Local.{BfCmd, CmdStream, put_cmd}
use bf.Local.Socket.{LocalSocket, send_by, send_all, on_connected}

-- A command that is sent on a connection is in the bytes of the socket, behind its size.
send_by-connected :
    (s : CmdStream) (sock : LocalSocket) (cmd : BfCmd)
    → sock.connected ≡ true
    → let sock' = (send_by s (returned 0) (returned 0) sock cmd).0 in
      (sock'.out ≡ sock.out ++ le32 (length (put_cmd s cmd)) (put_cmd s cmd))
      × (sock'.connected ≡ true)
unfolding send_by
send_by-connected s sock cmd h = (rw h, rw h)

-- Commands that are sent on a connection are written one after the other, in the form in which the
-- slots read them.
pub send_all-out :
    (s : CmdStream) (sock : LocalSocket) (cmds : List BfCmd)
    → sock.connected ≡ true
    → (send_all s sock cmds).out ≡ sock.out ++ encode (map (put_cmd s) cmds)
unfolding send_all write_frame
send_all-out s sock [] h = sym (append-nil sock.out)
send_all-out s sock (cmd ∷ cmds) h =
    let sent = send_by-connected s sock cmd h in
    send_all-out s (send_by s (returned 0) (returned 0) sock cmd).0 cmds sent.1
    ∙ ap (λ out. out ++ encode (map (put_cmd s) cmds)) sent.0
    ∙ append_assoc sock.out (le32 (length (put_cmd s cmd)) (put_cmd s cmd))
        (encode (map (put_cmd s) cmds))

-- A command that is refused since there is no connection goes out when there is one, if no other waits.
pub on_connected-refused :
    (s : CmdStream) (size body : Result) (sock : LocalSocket) (cmd : BfCmd)
    → sock.connected ≡ false
    → sock.command_queue ≡ []
    → let refused = send_by s size body sock cmd in
      (refused.1 ≡ failed 1)
      × ((on_connected s (returned 0) (returned 0) (record refused.0 { connected = true })).out
          ≡ sock.out ++ write_frame (put_cmd s cmd) [])
unfolding send_by on_connected write_frame
on_connected-refused s size body sock cmd h empty =
    (rw h, rw (h, empty, append-nil (put_cmd s cmd)))
