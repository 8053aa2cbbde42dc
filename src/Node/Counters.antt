-- ===== src/Node/Counters.antt =====
-- The counters that all nodes share, of network/include/node.h: NumPreferedDownload, NumProtected,
-- NumSyncStarted and NumValidatedDownload, and the setters that keep them. A counter is an int.
use btcdemo.Prelude.{
  ℕ, zero, suc, ◌+◌, ◌-◌, ◌%◌, ◌^◌, ◌≡◌, refl, Bool, true, false, List, [], ◌∷◌, ltb, arith,
}
use btcdemo.NetAddr.{NetAddr}
use btcdemo.Node.{Node, new_node, is_prefered_download}

pub record Shared : Type 0 where
  pub num_prefered_download : ℕ
  pub num_protected : ℕ
  pub num_sync_started : ℕ
  pub num_validated_download : ℕ

-- A bool as an int.
abbrev pub as_int : Bool → ℕ
as_int true = 1
as_int false = 0

-- `num -= before; ...; num += after`
unfoldable pub recount : Bool → Bool → ℕ → ℕ
recount before after num = ((num + 2 ^ 32 - as_int before) % 2 ^ 32 + as_int after) % 2 ^ 32

-- The constructor, which counts the node if it is preferred.
unfoldable pub count_new : Node → Shared → Shared
count_new n c = record c {
  num_prefered_download = (c.num_prefered_download + as_int (is_prefered_download n)) % 2 ^ 32;
}

unfoldable pub set_services : ℕ → Node → Shared → Node × Shared
set_services services n c =
    let n1 = record n { services = services } in
    (
      n1,
      record c {
        num_prefered_download =
            recount (is_prefered_download n) (is_prefered_download n1) c.num_prefered_download;
      },
    )

unfoldable pub set_protect : Bool → Node → Shared → Node × Shared
set_protect protect n c = (
  record n { block_sync = record n.block_sync { protect = protect } },
  record c { num_protected = recount n.block_sync.protect protect c.num_protected },
)

unfoldable pub set_sync_started : Bool → Node → Shared → Node × Shared
set_sync_started sync_started n c = (
  record n { block_sync = record n.block_sync { sync_started = sync_started } },
  record c { num_sync_started = recount n.block_sync.sync_started sync_started c.num_sync_started },
)

-- `num_valid_headers` is an int that is not negative.
unfoldable pub set_num_valid_headers : ℕ → Node → Shared → Node × Shared
set_num_valid_headers num n c = (
  record n { block_sync = record n.block_sync { num_valid_headers = num } },
  record c {
    num_validated_download =
        recount (ltb 0 n.block_sync.num_valid_headers) (ltb 0 num) c.num_validated_download;
  },
)

-- All nodes that were ever made, the last one first. Nothing is counted back when a node is destroyed,
-- so a destroyed node stays in the list with the fields that it had.
pub record Fleet : Type 0 where
  pub made : List Node
  pub shared : Shared

pub data Event : Type 0 where
  construct : ℕ → ℕ → NetAddr → Bool → Bool → List ℕ → Event
  change_services : ℕ → ℕ → Event
  change_protect change_sync_started : ℕ → Bool → Event
  change_num_valid_headers : ℕ → ℕ → Event

abbrev Setter : Type 0
Setter = Node → Shared → Node × Shared

-- A setter on the node at a position; past the end there is no node to call it on.
unfoldable pub on_node : ℕ → Setter → List Node → Shared → List Node × Shared
on_node i f [] c = ([], c)
on_node zero f (n ∷ ns) c = let (n1, c1) = f n c in (n1 ∷ ns, c1)
on_node (suc i) f (n ∷ ns) c = let (ns1, c1) = on_node i f ns c in (n ∷ ns1, c1)

abbrev on_fleet : ℕ → Setter → Fleet → Fleet
on_fleet i f w =
    let (made, shared) = on_node i f w.made w.shared in record { made = made; shared = shared }

abbrev pub length_of : List Node → ℕ
length_of [] = 0
length_of (n ∷ ns) = suc (length_of ns)

unfoldable pub happen : Event → Fleet → Fleet
happen (construct nonce bev addr is_inbound manual host_name) w =
    let n = new_node (length_of w.made) nonce bev addr is_inbound manual host_name in
    record { made = n ∷ w.made; shared = count_new n w.shared }
happen (change_services i services) w = on_fleet i (set_services services) w
happen (change_protect i protect) w = on_fleet i (set_protect protect) w
happen (change_sync_started i sync_started) w = on_fleet i (set_sync_started sync_started) w
happen (change_num_valid_headers i num) w = on_fleet i (set_num_valid_headers num) w

unfoldable pub history : List Event → Fleet → Fleet
history [] w = w
history (e ∷ es) w = history es (happen e w)

abbrev pub no_nodes : Fleet
no_nodes = record {
  made = [];
  shared = record {
    num_prefered_download = 0;
    num_protected = 0;
    num_sync_started = 0;
    num_validated_download = 0;
  };
}

-- How many nodes pass a test.
abbrev pub count_if : (Node → Bool) → List Node → ℕ
count_if test [] = 0
count_if test (n ∷ ns) = as_int (test n) + count_if test ns

abbrev pub Follows : ℕ → (Node → Bool) → List Node → Type 0
Follows num test ns = num ≡ count_if test ns % 2 ^ 32

abbrev pub protects : Node → Bool
protects n = n.block_sync.protect

abbrev pub has_sync_started : Node → Bool
has_sync_started n = n.block_sync.sync_started

abbrev pub has_valid_headers : Node → Bool
has_valid_headers n = ltb 0 n.block_sync.num_valid_headers

-- Each counter is the number of the nodes that it is about, modulo 2^32.
pub record Counted (w : Fleet) : Type 0 where
  pub prefered : Follows w.shared.num_prefered_download is_prefered_download w.made
  pub protected : Follows w.shared.num_protected protects w.made
  pub sync_started : Follows w.shared.num_sync_started has_sync_started w.made
  pub validated : Follows w.shared.num_validated_download has_valid_headers w.made

-- One step of a setter keeps a counter in step with a test.
abbrev Keeps : (Shared → ℕ) → (Node → Bool) → Setter → Type 0
Keeps num test f =
    (n : Node) (c : Shared) (others : ℕ)
    → num c ≡ (as_int (test n) + others) % 2 ^ 32
    → num (f n c).1 ≡ (as_int (test (f n c).0) + others) % 2 ^ 32

recounted :
    (before after : Bool) (num others : ℕ)
    → num ≡ (as_int before + others) % 2 ^ 32
    → recount before after num ≡ (as_int after + others) % 2 ^ 32
unfolding recount
recounted true true num others e = omega (arith, e)
recounted true false num others e = omega (arith, e)
recounted false true num others e = omega (arith, e)
recounted false false num others e = omega (arith, e)

-- A setter that leaves what a counter and its test read.
on_node-Keeps :
    (num : Shared → ℕ) (test : Node → Bool) (f : Setter)
    → Keeps num test f
    → (i : ℕ) (ns : List Node) (c : Shared) (others : ℕ)
    → num c ≡ (count_if test ns + others) % 2 ^ 32
    → num (on_node i f ns c).1 ≡ (count_if test (on_node i f ns c).0 + others) % 2 ^ 32
unfolding on_node
on_node-Keeps num test f keeps i [] c others e = e
on_node-Keeps num test f keeps zero (n ∷ ns) c others e =
    let shift = keeps n c (count_if test ns + others) (omega (arith, e)) in omega (arith, shift)
on_node-Keeps num test f keeps (suc i) (n ∷ ns) c others e =
    let rest =
      on_node-Keeps num test f keeps i ns c (as_int (test n) + others) (omega (arith, e)) in
    omega (arith, rest)

on_fleet-Follows :
    (num : Shared → ℕ) (test : Node → Bool) (f : Setter)
    → Keeps num test f
    → (i : ℕ) (w : Fleet) → Follows (num w.shared) test w.made
    → Follows (num (on_fleet i f w).shared) test (on_fleet i f w).made
on_fleet-Follows num test f keeps i w e =
    omega (arith, on_node-Keeps num test f keeps i w.made w.shared 0 (omega (arith, e)))

-- The four counters under one setter.
on_fleet-Counted :
    (f : Setter)
    → Keeps (λ c. c.num_prefered_download) is_prefered_download f
    → Keeps (λ c. c.num_protected) protects f
    → Keeps (λ c. c.num_sync_started) has_sync_started f
    → Keeps (λ c. c.num_validated_download) has_valid_headers f
    → (i : ℕ) (w : Fleet) → Counted w
    → Counted (on_fleet i f w)
on_fleet-Counted f k1 k2 k3 k4 i w h = record {
  prefered = on_fleet-Follows _ is_prefered_download f k1 i w h.prefered;
  protected = on_fleet-Follows _ protects f k2 i w h.protected;
  sync_started = on_fleet-Follows _ has_sync_started f k3 i w h.sync_started;
  validated = on_fleet-Follows _ has_valid_headers f k4 i w h.validated;
}

construct-Counted :
    (n : Node) (w : Fleet)
    → n.block_sync ≡ record { protect = false; sync_started = false; num_valid_headers = 0 }
    → Counted w
    → Counted (record { made = n ∷ w.made; shared = count_new n w.shared })
unfolding count_new
construct-Counted n w fresh h = record {
  prefered = omega (arith, h.prefered);
  protected = rw fresh (omega (arith, h.protected));
  sync_started = rw fresh (omega (arith, h.sync_started));
  validated = rw fresh (omega (arith, h.validated));
}

happen-Counted : (e : Event) (w : Fleet) → Counted w → Counted (happen e w)
unfolding happen new_node set_services set_protect set_sync_started set_num_valid_headers
    is_prefered_download
happen-Counted (construct nonce bev addr is_inbound manual host_name) w h =
    construct-Counted _ w refl h
happen-Counted (change_services i services) w h =
    on_fleet-Counted (set_services services) (λ n c others e. recounted _ _ _ others e)
      (λ n c others e. e) (λ n c others e. e) (λ n c others e. e) i w h
happen-Counted (change_protect i protect) w h =
    on_fleet-Counted (set_protect protect) (λ n c others e. e)
      (λ n c others e. recounted _ _ _ others e) (λ n c others e. e) (λ n c others e. e) i w h
happen-Counted (change_sync_started i sync_started) w h =
    on_fleet-Counted (set_sync_started sync_started) (λ n c others e. e) (λ n c others e. e)
      (λ n c others e. recounted _ _ _ others e) (λ n c others e. e) i w h
happen-Counted (change_num_valid_headers i num) w h =
    on_fleet-Counted (set_num_valid_headers num) (λ n c others e. e) (λ n c others e. e)
      (λ n c others e. e) (λ n c others e. recounted _ _ _ others e) i w h

-- Whatever nodes are made and whatever their setters are called with, each of the four shared
-- counters is modulo 2^32 the number of the nodes ever made that it is about.
pub history-Counted : (events : List Event) (w : Fleet) → Counted w → Counted (history events w)
unfolding history
history-Counted [] w h = h
history-Counted (e ∷ es) w h = history-Counted es (happen e w) (happen-Counted e w h)
