-- ===== src/MsgProcess/Frames.antt =====
-- ParseMsg of network/src/msg_process.cpp: the loop over the messages in the input of a connection.
-- The buffer of libevent is a parameter with the two functions that the loop calls, and what their
-- documentation says of them. What ParseMsgData does to a state, and Disconnect, are parameters too;
-- `stale` is what stood in the read buffers.
use btcdemo.Prelude.{
  ℕ, zero, suc, ◌≤◌, ◌<◌, ◌≡◌, refl, sym, ap, ◌∙◌, subst, Bool, true, false, not, ◌&&◌, List, [],
  ◌∷◌, ◌++◌, Option, none, some, length, take, drop, ltb, ◌==◌, if◌then◌else◌, length-append,
  take_all, ltb-false, lt→ltb, ==_iff, Option-cases, inl, inr, arith,
}
use mathlib.Core.List.{append_assoc, append-nil}
use btcdemo.Prelude.Bytes.{All}
use btcdemo.Stream.{ok, err, Input}
use btcdemo.Stream.Window.{take-append, drop-append}
use btcdemo.Endian.{to_little_endian}
use btcdemo.Endian.RoundTrip.{length-to_little_endian}
use btcdemo.Prelude.Hash.{Hash256}
use btcdemo.Node.{Node, is_disconnected}
use btcdemo.Protocol.Handshake.{Context, disconnect}
use btcdemo.MsgProcess.{Effect, parse_msg_data}
use btcdemo.Protocol.{max_message_size}
use btcdemo.Protocol.Header.{
  MessageHeader, serialize, of_raw, IsMessageHeader, deserialize-serialize_message_header,
}

-- `pullup` gives the first bytes in one piece, or null if the buffer holds fewer; `drain` takes them
-- away.
pub record EvBuffer : Type 1 where
  pub Buffer : Type 0
  pub contents : Buffer → List ℕ
  pub pullup : ℕ → Buffer → Option (List ℕ)
  pub drain : ℕ → Buffer → Buffer
  pub pullup_enough :
      (n : ℕ) (b : Buffer) → n ≤ length (contents b) → pullup n b ≡ some (take n (contents b))
  pub pullup_short : (n : ℕ) (b : Buffer) → length (contents b) < n → pullup n b ≡ none
  pub drain_contents : (n : ℕ) (b : Buffer) → contents (drain n b) ≡ drop n (contents b)

abbrev pub header_size : ℕ
header_size = 24

-- What ends a call: a header that cannot be read, an exception, or the return with a value.
pub data Ended {ℓ} (A : Type ℓ) : Type ℓ where
  returns : Bool → A → Ended A
  fails : Ended A
  out_of_fuel : Ended A

length-serialize : (h : MessageHeader) → IsMessageHeader h → length (serialize h) ≡ header_size
unfolding serialize
length-serialize h fits = omega (
  arith,
  length-append (to_little_endian 4 h.magic)
      (h.command_bytes ++ (to_little_endian 4 h.payload_length ++ to_little_endian 4 h.checksum)),
  length-append h.command_bytes
      (to_little_endian 4 h.payload_length ++ to_little_endian 4 h.checksum),
  length-append (to_little_endian 4 h.payload_length) (to_little_endian 4 h.checksum),
  length-to_little_endian 4 h.magic,
  length-to_little_endian 4 h.payload_length,
  length-to_little_endian 4 h.checksum,
  fits.command_full,
)

-- The constructor from the bytes of a header gives the header.
of_raw-serialize :
    (stale : ℕ) (h : MessageHeader)
    → IsMessageHeader h
    → (s : Input) × (of_raw stale (serialize h) ≡ ok (h, s))
unfolding of_raw
of_raw-serialize stale h fits =
    let s : Input = record {
      container = take 24 (serialize h);
      position = 0;
      interrupted = false;
    } in
    let (s1, e, _) = deserialize-serialize_message_header stale h s [] fits (record {
      inside = omega arith;
      bytes = take_all 24 (serialize h) (length-serialize h fits) ∙ sym (append-nil (serialize h));
    }) in
    (s1, e)

module _ (ev : EvBuffer) {S : Type 0} where
  open ev use {Buffer, contents, pullup, drain, pullup_enough, pullup_short, drain_contents}

  module _ (stale magic : ℕ) (parse_data : MessageHeader → List ℕ → S → Option (Bool × S))
      (disconnect : S → S) where
    -- The payload that is pulled up; of an empty one no byte is read.
    unfoldable pub payload_of : ℕ → Buffer → Option (List ℕ)
    payload_of size b = if ltb 0 size then pullup size b else some []

    -- The loop `while (raw)`, with the buffer, the state and `ret`.
    unfoldable pub parse_from : ℕ → Option (List ℕ) → Buffer → S → Bool → Ended (Buffer × S)
    parse_from zero raw b s ret = out_of_fuel
    parse_from (suc fuel) none b s ret = returns ret (b, s)
    parse_from (suc fuel) (some raw) b s ret = elim (of_raw stale raw) [
      | err e ↦ fails
      | ok (h, _) ↦
          let b1 = drain header_size b in
          if ltb max_message_size h.payload_length
          then returns false (b1, disconnect s)
          else if not (h.magic == magic)
          then returns false (b1, disconnect s)
          else (elim (payload_of h.payload_length b1) [
            | none ↦ returns false (b1, s)
            | some payload ↦ elim (parse_data h payload s) [
              | none ↦ fails
              | some (result, s1) ↦
                  let b2 = drain h.payload_length b1 in
                  parse_from fuel (pullup header_size b2) b2 s1 (ret && result)
            ]
          ])
    ]

    -- ParseMsg on a node with a buffer, before which it is checked that the node is not disconnected
    -- and a header is there.
    unfoldable pub parse_msg : ℕ → Bool → Buffer → S → Ended (Buffer × S)
    parse_msg fuel is_disconnected b s =
        if is_disconnected then returns false (b, s) else (elim (pullup header_size b) [
          | none ↦ returns false (b, s)
          | some raw ↦ parse_from fuel (some raw) b s true
        ])

    -- A message as SendMsg writes it, for this network.
    pub record IsFrame (f : MessageHeader × List ℕ) : Type 0 where
      pub header_fits : IsMessageHeader f.0
      pub magic_ours : f.0.magic ≡ magic
      pub whole : f.0.payload_length ≡ length f.1
      pub small : length f.1 ≤ max_message_size

    abbrev pub frame_bytes : MessageHeader × List ℕ → List ℕ
    frame_bytes (h, payload) = serialize h ++ payload

    abbrev pub frames_bytes : List (MessageHeader × List ℕ) → List ℕ
    frames_bytes [] = []
    frames_bytes (f ∷ fs) = frame_bytes f ++ frames_bytes fs

    -- The messages handled one after the other.
    unfoldable pub handle_all : List (MessageHeader × List ℕ) → S → Bool → Option (Bool × S)
    handle_all [] s ret = some (ret, s)
    handle_all ((h, payload) ∷ fs) s ret = elim (parse_data h payload s) [
      | none ↦ none
      | some (result, s1) ↦ handle_all fs s1 (ret && result)
    ]

    -- What ParseMsg ends with when the messages were handled.
    abbrev pub Handles : List ℕ → Option (Bool × S) → Ended (Buffer × S) → Type 0
    Handles rest none ended = ended ≡ fails
    Handles rest (some (result, s)) ended =
        (b : Buffer) × (ended ≡ returns result (b, s)) × (contents b ≡ rest)

    -- What stands in front of a buffer is pulled up and drained.
    front :
        (xs ys : List ℕ) (n : ℕ) (b : Buffer)
        → length xs ≡ n
        → contents b ≡ xs ++ ys
        → (pullup n b ≡ some xs) × (contents (drain n b) ≡ ys)
    front xs ys n b size e = (
      pullup_enough n b (omega (arith, ap length e, length-append xs ys, size))
          ∙ ap some (ap (take n) e ∙ subst (λ m. take m (xs ++ ys) ≡ xs) size (take-append xs ys)),
      drain_contents n b
          ∙ ap (drop n) e
          ∙ subst (λ m. drop m (xs ++ ys) ≡ ys) size (drop-append xs ys),
    )

    pulled :
        (payload tail : List ℕ) (n : ℕ) (b : Buffer)
        → length payload ≡ n
        → contents b ≡ payload ++ tail
        → payload_of n b ≡ some payload
    unfolding payload_of
    pulled [] tail n b size e = rw (← size) refl
    pulled (x ∷ xs) tail n b size e =
        rw (lt→ltb 0 n (omega (arith, size))) ((front (x ∷ xs) tail n b size e).0)

    step :
        (fuel : ℕ) (h : MessageHeader) (payload tail : List ℕ) (b : Buffer) (s : S) (ret : Bool)
        → IsFrame (h, payload)
        → contents b ≡ frame_bytes (h, payload) ++ tail
        → (b2 : Buffer) × (contents b2 ≡ tail)
          × (parse_from (suc fuel) (pullup header_size b) b s ret ≡ (elim (parse_data h payload s) [
            | none ↦ fails
            | some (result, s1) ↦ parse_from fuel (pullup header_size b2) b2 s1 (ret && result)
          ]))
    unfolding parse_from
    step fuel h payload tail b s ret f e =
        let e1 : contents b ≡ serialize h ++ (payload ++ tail) =
          e ∙ append_assoc (serialize h) payload tail in
        let (raw, left) =
          front (serialize h) (payload ++ tail) header_size b (length-serialize h f.header_fits)
            e1 in
        let (input, read) = of_raw-serialize stale h f.header_fits in
        let size : length payload ≡ h.payload_length = sym f.whole in
        let fits : ltb max_message_size h.payload_length ≡ false =
          ltb-false _ _ (λ k. omega (arith, f.small, size, k)) in
        let ours : (h.magic == magic) ≡ true = (==_iff h.magic magic).1 f.magic_ours in
        (
          drain h.payload_length (drain header_size b),
          (front payload tail h.payload_length (drain header_size b) size left).1,
          rw
              (
                raw,
                parse_from,
                read,
                fits,
                ours,
                pulled payload tail h.payload_length (drain header_size b) size left,
              )
              refl,
        )

    parse_from-frames :
        (fuel : ℕ) (fs : List (MessageHeader × List ℕ)) (rest : List ℕ) (b : Buffer) (s : S)
        (ret : Bool)
        → All IsFrame fs
        → contents b ≡ frames_bytes fs ++ rest
        → length rest < header_size
        → length fs < fuel
        → Handles rest (handle_all fs s ret) (parse_from fuel (pullup header_size b) b s ret)
    unfolding handle_all parse_from
    parse_from-frames zero fs rest b s ret whole e short enough = absurd (omega (arith, enough))
    parse_from-frames (suc fuel) [] rest b s ret whole e short enough =
        rw (pullup_short header_size b (rw e short)) (b, refl, e)
    parse_from-frames (suc fuel) ((h, payload) ∷ fs) rest b s ret (f, whole) e short enough =
        let (b2, left, next) =
          step fuel h payload (frames_bytes fs ++ rest) b s ret f
            (e ∙ append_assoc (frame_bytes (h, payload)) (frames_bytes fs) rest) in
        elim (Option-cases (parse_data h payload s)) [
          | inl q ↦ rw (handle_all, next, q) refl
          | inr ((result, s1), q) ↦
              rw (handle_all, next, q)
                (parse_from-frames fuel fs rest b2 s1 (ret && result) whole left short
                  (omega (arith, enough)))
        ]

    -- ParseMsg on a buffer of whole messages of this network, followed by less than a header, ends
    -- with as many rounds as there are messages and one: it hands the messages to ParseMsgData in
    -- their order, returns whether all were accepted, and leaves what follows them in the buffer. An
    -- exception of ParseMsgData ends it.
    pub parse_msg-frames :
        (fuel : ℕ) (f : MessageHeader × List ℕ) (fs : List (MessageHeader × List ℕ)) (rest : List ℕ)
        (b : Buffer) (s : S)
        → All IsFrame (f ∷ fs)
        → contents b ≡ frames_bytes (f ∷ fs) ++ rest
        → length rest < header_size
        → length (f ∷ fs) < fuel
        → Handles rest (handle_all (f ∷ fs) s true) (parse_msg fuel false b s)
    unfolding parse_msg
    parse_msg-frames fuel (h, payload) fs rest b s (frame, whole) e short enough =
        let (raw, _) =
          front (serialize h) (payload ++ (frames_bytes fs ++ rest)) header_size b
            (length-serialize h frame.header_fits)
            (e
              ∙ append_assoc (serialize h ++ payload) (frames_bytes fs) rest
              ∙ append_assoc (serialize h) payload (frames_bytes fs ++ rest)) in
        let all =
          parse_from-frames fuel ((h, payload) ∷ fs) rest b s true (frame, whole) e short enough in
        rw (parse_msg, raw) (rw raw at all)

    -- If a payload has not arrived as a whole, ParseMsg returns false and has already taken the header
    -- out of the buffer: what is left begins with the payload, so that the next call reads a part of
    -- the payload as a header.
    pub parse_msg_partial :
        (fuel : ℕ) (h : MessageHeader) (part : List ℕ) (b : Buffer) (s : S)
        → IsMessageHeader h
        → h.magic ≡ magic
        → h.payload_length ≤ max_message_size
        → length part < h.payload_length
        → contents b ≡ serialize h ++ part
        → (b1 : Buffer) × (parse_msg (suc fuel) false b s ≡ returns false (b1, s))
          × (contents b1 ≡ part)
    unfolding parse_msg parse_from payload_of
    parse_msg_partial fuel h part b s fits ours small short e =
        let (raw, left) = front (serialize h) part header_size b (length-serialize h fits) e in
        let (input, read) = of_raw-serialize stale h fits in
        let known : (h.magic == magic) ≡ true = (==_iff h.magic magic).1 ours in
        let some_bytes : ltb 0 h.payload_length ≡ true = lt→ltb 0 _ (omega (arith, short)) in
        let bounded : ltb max_message_size h.payload_length ≡ false =
          ltb-false _ _ (λ k. omega (arith, small, k)) in
        (
          drain header_size b,
          rw
              (
                parse_msg,
                raw,
                parse_from,
                read,
                bounded,
                known,
                payload_of,
                some_bytes,
                pullup_short h.payload_length (drain header_size b) (rw left short),
              )
              refl,
          left,
        )

-- ParseMsg on a node, with what the handlers do to the world outside, in their order. The state is
-- only assigned by Disconnect here; what its callback does is in Node/Life.
abbrev pub NodeState : Type 0
NodeState = Node × List Effect

unfoldable pub handle_for_node :
    (List ℕ → Hash256)
    → ℕ
    → ℕ
    → Context
    → MessageHeader
    → List ℕ
    → NodeState
    → Option (Bool × NodeState)
handle_for_node sha256 stale returned c h payload (n, effects) =
    elim (parse_msg_data sha256 stale returned c payload n h) [
      | err e ↦ none
      | ok (result, n1, effect) ↦ some (result, (n1, effects ++ effect ∷ []))
    ]

unfoldable pub parse_msg_of_node :
    (ev : EvBuffer)
    → (List ℕ → Hash256)
    → ℕ
    → ℕ
    → ℕ
    → Context
    → ℕ
    → ev.Buffer
    → Node
    → Ended (ev.Buffer × NodeState)
parse_msg_of_node ev sha256 stale returned magic c fuel b n =
    parse_msg ev stale magic (handle_for_node sha256 stale returned c)
      (λ (m, effects). (disconnect m, effects)) fuel (is_disconnected n.connection) b (n, [])
