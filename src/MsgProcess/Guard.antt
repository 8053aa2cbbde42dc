-- ===== src/MsgProcess/Guard.antt =====
-- ParseMsgData of the messages that come before their time.
use btcdemo.Prelude.{
  ℕ, ◌≡◌, refl, subst, ◌⊎◌, inl, inr, Bool, true, false, not, List, take, ◌==◌, if◌then◌else◌,
  arith,
}
use btcdemo.Prelude.Hash.{Hash256, bytes_eq, bytes_eq_iff}
use btcdemo.Stream.{Input, Result, Error, ok, err}
use btcdemo.Node.{Node, is_handshake_completed}
use btcdemo.Protocol.{
  Text, msg_version, msg_verack, msg_addr, msg_inv, msg_get_addr, msg_ping, msg_pong, msg_reject,
  msg_send_headers, msg_send_cmpct,
}
use btcdemo.Protocol.Header.{MessageHeader, command, check_misbehaving}
use btcdemo.Protocol.Handshake.{Context}
use btcdemo.MsgProcess.{
  Outcome, nothing, read_then, blame, checksum_of, handle_msg_data, parse_msg_data, on_version,
  on_verack, on_addr, on_inv, on_get_addr, on_ping, on_pong, on_reject, on_send_headers,
  on_send_cmpct,
}

-- The message comes before the version of the peer, or before the handshake is complete.
abbrev pub IsEarly : Node → MessageHeader → Type 0
IsEarly n h =
    ((n.version ≡ 0) × (bytes_eq (command h) msg_version ≡ false))
    ⊎ ((is_handshake_completed n.connection ≡ false)
        × (bytes_eq (command h) msg_version ≡ false)
        × (bytes_eq (command h) msg_verack ≡ false))

-- Nothing but the score of the node changes, and nothing is sent.
pub data Quiet (n : Node) : Result Outcome → Type 0 where
  throws : (e : Error) → Quiet n (err e)
  keeps : Quiet n (ok (false, n, nothing))
  blames : Quiet n (ok (false, blame n, nothing))

early_refused :
    (n : Node) (h : MessageHeader)
    → IsEarly n h
    → check_misbehaving (command h) n.version (is_handshake_completed n.connection) ≡ false
unfolding check_misbehaving
early_refused n h (inl (unversioned, other)) = ground (arith, unversioned, other)
early_refused n h (inr (waiting, other, another)) = ground (arith, waiting, other, another)

branch :
    (n : Node) (b : Bool) (x y : Result Outcome)
    → (b ≡ true → Quiet n x)
    → (b ≡ false → Quiet n y)
    → Quiet n (if b then x else y)
branch n true x y hx hy = hx refl
branch n false x y hx hy = hy refl

after {ℓ} :
    {A : Type ℓ} (n : Node) (r : Result (A × Input)) (f : A → Outcome)
    → ((a : A) → Quiet n (ok (f a)))
    → Quiet n (read_then r f)
unfolding read_then
after n (ok (a, s)) f h = h a
after n (err e) f h = throws e

module _ (sha256 : List ℕ → Hash256) (n : Node) (h : MessageHeader) where
  abbrev Refused : Text → Type 0
  Refused name = check_misbehaving name n.version (is_handshake_completed n.connection) ≡ false

  handled :
      (name : Text) (bytes : List ℕ) (is_valid : Bool) (recv : Outcome)
      → Refused name
      → Quiet n (ok (handle_msg_data sha256 n h name bytes is_valid recv))
  unfolding handle_msg_data
  handled name bytes is_valid recv e =
      tests (not (h.checksum == checksum_of sha256 bytes)) (not is_valid)
    where
      tests :
          (a b : Bool)
          → Quiet n (
              ok (
                if a
                then (false, n, nothing)
                else if b
                then (false, n, nothing)
                else if not (check_misbehaving name n.version (is_handshake_completed n.connection))
                then (false, blame n, nothing)
                else recv))
      tests true b = keeps
      tests false true = keeps
      tests false false = rw e blames

  module _ (stale returned : ℕ) (c : Context) (s : Input) where
    on_version-Quiet : Refused msg_version → Quiet n (on_version sha256 stale returned c n h s)
    unfolding on_version
    on_version-Quiet e = after n _ _ (λ _. handled msg_version _ _ _ e)

    on_verack-Quiet : Refused msg_verack → Quiet n (on_verack sha256 stale returned c n h s)
    unfolding on_verack
    on_verack-Quiet e = handled msg_verack _ _ _ e

    on_addr-Quiet : Refused msg_addr → Quiet n (on_addr sha256 stale returned c n h s)
    unfolding on_addr
    on_addr-Quiet e = after n _ _ (λ _. handled msg_addr _ _ _ e)

    on_inv-Quiet : Refused msg_inv → Quiet n (on_inv sha256 stale returned c n h s)
    unfolding on_inv
    on_inv-Quiet e = after n _ _ (λ _. handled msg_inv _ _ _ e)

    on_get_addr-Quiet : Refused msg_get_addr → Quiet n (on_get_addr sha256 stale returned c n h s)
    unfolding on_get_addr
    on_get_addr-Quiet e = handled msg_get_addr _ _ _ e

    on_ping-Quiet : Refused msg_ping → Quiet n (on_ping sha256 stale returned c n h s)
    unfolding on_ping
    on_ping-Quiet e = after n _ _ (λ _. handled msg_ping _ _ _ e)

    on_pong-Quiet : Refused msg_pong → Quiet n (on_pong sha256 stale returned c n h s)
    unfolding on_pong
    on_pong-Quiet e = after n _ _ (λ _. handled msg_pong _ _ _ e)

    on_reject-Quiet : Refused msg_reject → Quiet n (on_reject sha256 stale returned c n h s)
    unfolding on_reject
    on_reject-Quiet e = after n _ _ (λ _. handled msg_reject _ _ _ e)

    on_send_headers-Quiet :
        Refused msg_send_headers → Quiet n (on_send_headers sha256 stale returned c n h s)
    unfolding on_send_headers
    on_send_headers-Quiet e = handled msg_send_headers _ _ _ e

    on_send_cmpct-Quiet :
        Refused msg_send_cmpct → Quiet n (on_send_cmpct sha256 stale returned c n h s)
    unfolding on_send_cmpct
    on_send_cmpct-Quiet e = after n _ _ (λ _. handled msg_send_cmpct _ _ _ e)

-- A message before the version of the peer that is not `version`, or before the end of the handshake
-- that is neither `version` nor `verack`, is refused whatever its bytes are: ParseMsgData throws, or
-- returns false, changes at most the misbehaviour of the node and sends nothing.
pub parse_msg_data-Quiet :
    (sha256 : List ℕ → Hash256) (stale returned : ℕ) (c : Context) (raw : List ℕ) (n : Node)
    (h : MessageHeader)
    → IsEarly n h
    → Quiet n (parse_msg_data sha256 stale returned c raw n h)
unfolding parse_msg_data
parse_msg_data-Quiet sha256 stale returned c raw n h early =
    branch n _ _ _ (λ _. keeps)
      λ _.
        branch n _ _ _ (λ e. on_version-Quiet sha256 n h stale returned c s (refused msg_version e))
          λ _.
            branch n _ _ _
              (λ e. on_verack-Quiet sha256 n h stale returned c s (refused msg_verack e))
              λ _.
                branch n _ _ _
                  (λ e. on_addr-Quiet sha256 n h stale returned c s (refused msg_addr e))
                  λ _.
                    branch n _ _ _
                      (λ e. on_inv-Quiet sha256 n h stale returned c s (refused msg_inv e))
                      λ _.
                        branch n _ _ _
                          (λ e.
                            on_get_addr-Quiet sha256 n h stale returned c s
                              (refused msg_get_addr e))
                          λ _.
                            branch n _ _ _
                              (λ e.
                                on_ping-Quiet sha256 n h stale returned c s (refused msg_ping e))
                              λ _.
                                branch n _ _ _
                                  (λ e.
                                    on_pong-Quiet sha256 n h stale returned c s
                                      (refused msg_pong e))
                                  λ _.
                                    branch n _ _ _
                                      (λ e.
                                        on_reject-Quiet sha256 n h stale returned c s
                                          (refused msg_reject e))
                                      λ _.
                                        branch n _ _ _
                                          (λ e.
                                            on_send_headers-Quiet sha256 n h stale returned c s
                                              (refused msg_send_headers e))
                                          λ _.
                                            branch n _ _ _
                                              (λ e.
                                                on_send_cmpct-Quiet sha256 n h stale returned c s
                                                  (refused msg_send_cmpct e))
                                              (λ _. keeps)
  where
    s : Input
    s = record { container = take h.payload_length raw; position = 0; interrupted = false }

    refused : (name : Text) → bytes_eq (command h) name ≡ true → Refused sha256 n h name
    refused name e =
        subst (λ t. check_misbehaving t n.version (is_handshake_completed n.connection) ≡ false)
          ((bytes_eq_iff (command h) name).0 e) (early_refused n h early)
