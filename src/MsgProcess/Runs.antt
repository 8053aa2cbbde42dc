-- ===== src/MsgProcess/Runs.antt =====
-- Messages in a buffer on concrete values.
use btcdemo.Prelude.{
  ℕ, ◌≤◌, ◌<◌, ◌≡◌, refl, Bool, true, false, List, [], ◌∷◌, ◌++◌, Option, none, some, length, take,
  drop, ltb, lt→ltb, ltb-false, if◌then◌else◌, inl, arith,
}
use btcdemo.Prelude.Hash.{Hash256, null_hash}
use btcdemo.NetAddr.{NetAddr}
use btcdemo.Node.{Node, new_node}
use btcdemo.Protocol.Header.{MessageHeader, IsMessageHeader, serialize}
use btcdemo.Protocol.Handshake.{Context}
use btcdemo.MsgProcess.{parse_msg_data}
use btcdemo.MsgProcess.Guard.{Quiet, parse_msg_data-Quiet}
use btcdemo.MsgProcess.Frames.{
  EvBuffer, returns, parse_msg, handle_all, Handles, parse_msg-frames, parse_msg_partial,
}

-- A buffer that is the list of its bytes.
abbrev pull : ℕ → List ℕ → Option (List ℕ)
pull n b = if ltb (length b) n then none else some (take n b)

pull_enough : (n : ℕ) (b : List ℕ) → n ≤ length b → pull n b ≡ some (take n b)
pull_enough n b h = rw (ltb-false (length b) n (λ k. omega (arith, h, k))) refl

pull_short : (n : ℕ) (b : List ℕ) → length b < n → pull n b ≡ none
pull_short n b h = rw (lt→ltb (length b) n h) refl

abbrev list_buffer : EvBuffer
list_buffer = record {
  Buffer = List ℕ;
  contents = λ b. b;
  pullup = pull;
  drain = drop;
  pullup_enough = pull_enough;
  pullup_short = pull_short;
  drain_contents = λ n b. refl;
}

abbrev ping_of : ℕ → MessageHeader
ping_of size = record {
  magic = 0xd9b4_bef9;
  command_bytes = 112 ∷ 105 ∷ 110 ∷ 103 ∷ 0 ∷ 0 ∷ 0 ∷ 0 ∷ 0 ∷ 0 ∷ 0 ∷ 0 ∷ [];
  payload_length = size;
  checksum = 0x1234_5678;
}

ping_of-IsMessageHeader : (size : ℕ) → size < 100 → IsMessageHeader (ping_of size)
ping_of-IsMessageHeader size h = record {
  magic_fits = omega arith;
  command_full = refl;
  command_bytes = search (arith);
  length_fits = omega (arith, h);
  checksum_fits = omega arith;
}

-- A state that counts the bytes of the payloads.
abbrev tally : MessageHeader → List ℕ → ℕ → Option (Bool × ℕ)
tally h payload seen = some (true, length payload)

abbrev same : ℕ → ℕ
same n = n

abbrev two_pings : List (MessageHeader × List ℕ)
two_pings = (ping_of 0, []) ∷ []

parse_msg-frames_example :
    Handles list_buffer 0 0xd9b4_bef9 tally same
      (5 ∷ [])
      (handle_all list_buffer 0 0xd9b4_bef9 tally same ((ping_of 2, 1 ∷ 2 ∷ []) ∷ two_pings) 0 true)
      (parse_msg list_buffer 0 0xd9b4_bef9 tally same 3 false
        ((serialize (ping_of 2) ++ 1 ∷ 2 ∷ []) ++ ((serialize (ping_of 0) ++ []) ++ []) ++ 5 ∷ [])
        0)
parse_msg-frames_example =
    parse_msg-frames list_buffer 0 0xd9b4_bef9 tally same 3 (ping_of 2, 1 ∷ 2 ∷ []) two_pings
      (5 ∷ [])
      ((serialize (ping_of 2) ++ 1 ∷ 2 ∷ []) ++ ((serialize (ping_of 0) ++ []) ++ []) ++ 5 ∷ []) 0
      (
        record {
          header_fits = ping_of-IsMessageHeader 2 (omega arith);
          magic_ours = refl;
          whole = refl;
          small = omega arith;
        },
        (
          record {
            header_fits = ping_of-IsMessageHeader 0 (omega arith);
            magic_ours = refl;
            whole = refl;
            small = omega arith;
          },
          tt,
        ),
      )
      refl (omega arith) (omega arith)

parse_msg_partial_example :
    (b1 : List ℕ) × (parse_msg list_buffer 0 0xd9b4_bef9 tally same 1 false
        (serialize (ping_of 8) ++ 1 ∷ 2 ∷ [])
        0
      ≡ returns false (b1, 0))
    × (b1 ≡ 1 ∷ 2 ∷ [])
parse_msg_partial_example =
    parse_msg_partial list_buffer 0 0xd9b4_bef9 tally same 0 (ping_of 8) (1 ∷ 2 ∷ [])
      (serialize (ping_of 8) ++ 1 ∷ 2 ∷ []) 0 (ping_of-IsMessageHeader 8 (omega arith)) refl
      (omega arith) (omega arith) refl

abbrev no_hash : List ℕ → Hash256
no_hash bytes = null_hash

abbrev somewhere : NetAddr
somewhere = record {
  ip = 0 ∷ 0 ∷ 0 ∷ 0 ∷ 0 ∷ 0 ∷ 0 ∷ 0 ∷ 0 ∷ 0 ∷ 255 ∷ 255 ∷ 8 ∷ 8 ∷ 8 ∷ 8 ∷ [];
  port = 8333;
  scope_id = 0;
  services = 9;
  timestamp = 0;
}

abbrev stranger : Node
stranger = new_node 0 7 1 somewhere true false []

abbrev world : Context
world = record {
  now = 1600000000;
  incoming_nonce_ok = true;
  advertise_local = false;
  is_initial_block_download = false;
  local_service = 9;
  random = 42;
  peers_size = none;
}

parse_msg_data-Quiet_example :
    Quiet stranger
      (parse_msg_data no_hash 0 0 world (1 ∷ 2 ∷ 3 ∷ 4 ∷ 5 ∷ 6 ∷ 7 ∷ 8 ∷ []) stranger (ping_of 8))
unfolding new_node btcdemo.Protocol.Header.command btcdemo.Protocol.Header.up_to_nul
parse_msg_data-Quiet_example =
    parse_msg_data-Quiet no_hash 0 0 world (1 ∷ 2 ∷ 3 ∷ 4 ∷ 5 ∷ 6 ∷ 7 ∷ 8 ∷ []) stranger (ping_of 8)
      (inl (refl, refl))
