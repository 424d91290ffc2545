-- ===== src/HashMap.antt =====
-- Common/hashmap.c and hashmap.h: separate chaining over caller-supplied hash and equality.
-- A chain is the list of its nodes from the bucket's head on. A map or key `none` is a NULL
-- pointer; values are pointers that are not NULL, as every caller stores, so that `none` is the
-- NULL that `hashmap_get` returns. Each call is given what its allocations do.
pub mod Chain
pub mod Buckets
pub mod Resize
pub mod Valid
pub mod Put
pub mod Success
pub mod Remove
pub mod Create
pub mod Weight
pub mod Ownership
pub mod Lives
use ikp_data_propagator.Prelude.{
  ℕ, zero, suc, ◌+◌, ◌-◌, ◌*◌, ◌%◌, ◌≡◌, Bool, true, false, ◌&&◌, ◌||◌, not, Option, none, some,
  List, [], ◌∷◌, ◌++◌, ◌==◌, leb, if◌then◌else◌, length, get_or, set, replicate, size_mod, Status,
  done, failed,
}

-- `hashFunc` and `keyEqFunc`, with what a hash table asks of them.
pub record KeyOps {ℓ} (K : Type ℓ) : Type ℓ where
  pub hash_func : K → ℕ
  pub key_eq : K → K → Bool
  pub key_eq_refl : (a : K) → key_eq a a ≡ true
  pub key_eq_symm : (a b : K) → key_eq a b ≡ key_eq b a
  pub key_eq_trans : (a b c : K) → key_eq a b ≡ true → key_eq b c ≡ true → key_eq a c ≡ true
  pub hash_func-key_eq : (a b : K) → key_eq a b ≡ true → hash_func a ≡ hash_func b

-- The list of the `HashNode`s from one on.
abbrev pub HashNodes {ℓ} : Type ℓ → Type ℓ → Type ℓ
HashNodes K V = List (K × V)

-- `struct HashMap`; the two flags say whether the free functions were given.
pub record HashMap {ℓ} (K V : Type ℓ) : Type ℓ where
  pub buckets : List (HashNodes K V)
  pub capacity : ℕ
  pub size : ℕ
  pub frees_key : Bool
  pub frees_value : Bool

-- What `freeKeyFunc` and `freeValueFunc` are called on.
pub data Freed {ℓ} (K V : Type ℓ) : Type ℓ where
  freed_key : K → Freed K V
  freed_value : V → Freed K V

-- The outcome of the allocations of one call: `calloc` of a bucket array by its length, and
-- `malloc` of a struct.
pub record Alloc : Type 0 where
  pub calloc : ℕ → Bool
  pub malloc : Bool

-- `(float)(size + 1) / (float)capacity <= 0.75f`, in exact arithmetic.
abbrev pub has_room : ℕ → ℕ → Bool
has_room size capacity = leb ((size + 1) * 4) (capacity * 3)

module _ {ℓ} {K : Type ℓ} ⦃ops : KeyOps K⦄ where
  -- `hashFunc(key) % capacity`
  unfoldable pub slot : K → ℕ → ℕ
  slot k capacity = ops.hash_func k % capacity

module _ {ℓ} {K V : Type ℓ} ⦃ops : KeyOps K⦄ where
  -- The search loop: the value of the first node whose key is equal.
  unfoldable pub find : K → HashNodes K V → Option V
  find k [] = none
  find k ((j, v) ∷ c) = if ops.key_eq j k then some v else find k c

  -- `node->value = value` at that node.
  unfoldable pub assign : K → V → HashNodes K V → HashNodes K V
  assign k v [] = []
  assign k v ((j, w) ∷ c) = if ops.key_eq j k then (j, v) ∷ c else (j, w) ∷ assign k v c

  -- Unlinks that node.
  unfoldable pub unlink : K → HashNodes K V → HashNodes K V
  unlink k [] = []
  unlink k ((j, w) ∷ c) = if ops.key_eq j k then c else (j, w) ∷ unlink k c

  -- The key of that node.
  unfoldable pub find_key : K → HashNodes K V → Option K
  find_key k [] = none
  find_key k ((j, v) ∷ c) = if ops.key_eq j k then some j else find_key k c

  -- The inner loop of `resize_if_needed`: each node goes to the head of its new chain.
  unfoldable pub move_chain : ℕ → HashNodes K V → List (HashNodes K V) → List (HashNodes K V)
  move_chain cap [] fresh = fresh
  move_chain cap ((k, v) ∷ c) fresh =
      let i = slot k cap in move_chain cap c (set fresh i ((k, v) ∷ get_or fresh i []))

  unfoldable pub move_all : ℕ → List (HashNodes K V) → List (HashNodes K V) → List (HashNodes K V)
  unfolding move_chain
  move_all cap [] fresh = fresh
  move_all cap (c ∷ cs) fresh = move_all cap cs (move_chain cap c fresh)

  -- The pair is `(result, map)`.
  unfoldable pub resize_if_needed : Alloc → HashMap K V → Bool × HashMap K V
  unfolding move_all
  resize_if_needed alloc m =
      let new_cap = (m.capacity * 2) % size_mod in
      if has_room m.size m.capacity
      then (true, m)
      else if alloc.calloc new_cap
      then (
        true,
        record m {
          buckets = move_all new_cap m.buckets (replicate new_cap []);
          capacity = new_cap;
        },
      )
      else (false, m)

  -- `has_functions` says that neither `hashFunc` nor `keyEqFunc` is NULL.
  unfoldable pub hashmap_create : Alloc → ℕ → Bool → Bool → Bool → Option (HashMap K V)
  hashmap_create alloc capacity has_functions frees_key frees_value =
      if (capacity == 0) || not has_functions
      then none
      else if alloc.malloc && alloc.calloc capacity
      then some (record {
        buckets = replicate capacity [];
        capacity = capacity;
        size = 0;
        frees_key = frees_key;
        frees_value = frees_value;
      })
      else none

  -- The branch of `hashmap_put` for a key that is there: the old value and the new key are freed.
  unfoldable pub replace : HashMap K V → K → V → V → Status × HashMap K V × List (Freed K V)
  replace m k v old =
      let i = slot k m.capacity in
      (
        done,
        record m { buckets = set m.buckets i (assign k v (get_or m.buckets i [])) },
        (if m.frees_value then freed_value old ∷ [] else [])
            ++ (if m.frees_key then freed_key k ∷ [] else []),
      )

  -- The branch for a new key.
  unfoldable pub insert : Alloc → HashMap K V → K → V → Status × HashMap K V × List (Freed K V)
  insert alloc m k v =
      let i = slot k m.capacity in
      if alloc.malloc
      then (
        done,
        record m {
          buckets = set m.buckets i ((k, v) ∷ get_or m.buckets i []);
          size = (m.size + 1) % size_mod;
        },
        [],
      )
      else (failed, m, [])

  -- The two branches of `hashmap_put` behind the resize.
  unfoldable pub put_at : Alloc → HashMap K V → K → V → Status × HashMap K V × List (Freed K V)
  put_at alloc m k v = elim (find k (get_or m.buckets (slot k m.capacity) [])) [
    | some old ↦ replace m k v old
    | none ↦ insert alloc m k v
  ]

  unfoldable pub put_checked : Alloc → HashMap K V → K → V → Status × HashMap K V × List (Freed K V)
  put_checked alloc m k v =
      let (fits, m') = resize_if_needed alloc m in
      if fits then put_at alloc m' k v else (failed, m', [])

  unfoldable pub hashmap_put :
      Alloc → Option (HashMap K V) → Option K → V → Status × Option (HashMap K V) × List (Freed K V)
  hashmap_put alloc (some m) (some k) v =
      let (s, m', freed) = put_checked alloc m k v in (s, some m', freed)
  hashmap_put alloc m k v = (failed, m, [])

  unfoldable pub hashmap_get : Option (HashMap K V) → Option K → Option V
  hashmap_get (some m) (some k) = find k (get_or m.buckets (slot k m.capacity) [])
  hashmap_get m k = none

  -- The node's key is freed before its value.
  unfoldable pub freed_node : HashMap K V → K → V → List (Freed K V)
  freed_node m k v =
      (if m.frees_key then freed_key k ∷ [] else [])
      ++ (if m.frees_value then freed_value v ∷ [] else [])

  unfoldable pub remove_at :
      HashMap K V → K → Option K → Option V → Bool × HashMap K V × List (Freed K V)
  remove_at m k (some j) (some v) =
      let i = slot k m.capacity in
      (
        true,
        record m {
          buckets = set m.buckets i (unlink k (get_or m.buckets i []));
          size = (m.size + size_mod - 1) % size_mod;
        },
        freed_node m j v,
      )
  remove_at m k j v = (false, m, [])

  unfoldable pub hashmap_remove :
      Option (HashMap K V) → Option K → Bool × Option (HashMap K V) × List (Freed K V)
  unfolding remove_at
  hashmap_remove (some m) (some k) =
      let c = get_or m.buckets (slot k m.capacity) [] in
      let (found, m', freed) = remove_at m k (find_key k c) (find k c) in (found, some m', freed)
  hashmap_remove m k = (false, m, [])

  unfoldable pub hashmap_contains : Option (HashMap K V) → Option K → Bool
  hashmap_contains m k = elim (hashmap_get m k) [ none ↦ false | some _ ↦ true ]

  unfoldable pub hashmap_size : Option (HashMap K V) → ℕ
  hashmap_size none = 0
  hashmap_size (some m) = m.size

  -- The inner loop of `hashmap_destroy`, then the outer one.
  unfoldable pub destroy_chain : HashMap K V → HashNodes K V → List (Freed K V)
  destroy_chain m [] = []
  destroy_chain m ((k, v) ∷ c) = freed_node m k v ++ destroy_chain m c

  unfoldable pub destroy_buckets : HashMap K V → ℕ → ℕ → List (Freed K V)
  destroy_buckets m i zero = []
  destroy_buckets m i (suc n) =
      destroy_chain m (get_or m.buckets i []) ++ destroy_buckets m (i + 1) n

  unfoldable pub hashmap_destroy : Option (HashMap K V) → List (Freed K V)
  unfolding destroy_chain destroy_buckets
  hashmap_destroy none = []
  hashmap_destroy (some m) = destroy_buckets m 0 m.capacity
