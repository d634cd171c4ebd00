-- ===== src/Actuator/MemoryStore/Pending.antt =====
-- The order of the stored snapshots, and which of them are pending (crates/actuator/src/lib.rs).
use nemor.Base.{
  ℕ, ◌+◌, ◌≤◌, ◌<◌, ◌≡◌, ◌≢◌, refl, true, false, [], ◌∷◌, All, filter, map, ltb, ◌==◌, ok, ◌⊎◌, inl,
  inr, Bool-cases, arith, u64_max, wrapping_add,
}
use nemor.Actuator.Types.{MutationSnapshot}
use nemor.Actuator.MemoryStore.{
  Entries, MemorySnapshotStore, insert, contains_key, persist, update, is_pending, pending,
}

-- The keys grow from above `low` to at most `high`, and each is the id of its snapshot.
abbrev pub InOrder : ℕ → ℕ → Entries → Type 0
InOrder low high [] = Unit {0}
InOrder low high ((k, x) ∷ rest) = (low < k) × (k ≤ high) × (x.id ≡ k) × InOrder k high rest

abbrev pub IsKept : MemorySnapshotStore → Type 0
IsKept s = InOrder 0 s.next_id s.snapshots

InOrder-weaken :
    (low high more : ℕ) (es : Entries) → high ≤ more → InOrder low high es → InOrder low more es
InOrder-weaken low high more [] h o = tt
InOrder-weaken low high more ((k, x) ∷ rest) h (a, b, c, d) =
    (a, omega arith, c, InOrder-weaken k high more rest h d)

ltb→< : (a b : ℕ) → ltb a b ≡ true → a < b
ltb→< a b h = ground arith

-- The tail of a list in order starts above any lower key, too.
InOrder-lower :
    (low less high : ℕ) (es : Entries) → less ≤ low → InOrder low high es → InOrder less high es
InOrder-lower low less high [] h o = tt
InOrder-lower low less high ((k, x) ∷ rest) h (a, b, c, d) = (omega arith, b, c, d)

insert-InOrder :
    (low high k : ℕ) (x : MutationSnapshot) (es : Entries)
    → low < k
    → k ≤ high
    → x.id ≡ k
    → InOrder low high es
    → InOrder low high (insert k x es)
unfolding insert
insert-InOrder low high k x [] h l e o = (h, l, e, tt)
insert-InOrder low high k x ((j, y) ∷ rest) h l e (a, b, c, d) = elim (Bool-cases (ltb k j)) [
  | inl p ↦ rw p (h, l, e, (ltb→< k j p, b, c, d))
  | inr p ↦ elim (Bool-cases (k == j)) [
    | inl q ↦ rw (p, q) (h, l, e, InOrder-lower j k high rest (ground arith) d)
    | inr q ↦ rw (p, q) (a, b, c, insert-InOrder j high k x rest (ground arith) l e d)
  ]
]

-- The ids of the pending snapshots of some entries differ from `k`.
abbrev Free : ℕ → Entries → Type 0
Free k es = All (λ y. y.id ≢ k) (filter is_pending (map (λ e. e.1) es))

All-keep_if :
    (k : ℕ) (x : MutationSnapshot) (es : Entries)
    → (is_pending x ≡ false) ⊎ (x.id ≢ k)
    → Free k es
    → Free k ((x.id, x) ∷ es)
All-keep_if k x es h f = elim (Bool-cases (is_pending x)) [
  | inl p ↦ rw p (elim h [ inl q ↦ absurd (ground arith) | inr q ↦ (q, f) ])
  | inr p ↦ rw p f
]

above-Free : (k low high : ℕ) (es : Entries) → k ≤ low → InOrder low high es → Free k es
above-Free k low high [] h o = tt
above-Free k low high ((j, y) ∷ rest) h (a, b, c, d) =
    All-keep_if k y rest (inr (λ e. absurd (omega arith)))
      (above-Free k j high rest (omega arith) d)

insert-Free :
    (low high : ℕ) (x : MutationSnapshot) (es : Entries)
    → is_pending x ≡ false
    → InOrder low high es
    → Free x.id (insert x.id x es)
unfolding insert
insert-Free low high x [] r o = All-keep_if x.id x [] (inl r) tt
insert-Free low high x ((j, y) ∷ rest) r (a, b, c, d) = elim (Bool-cases (ltb x.id j)) [
  | inl p ↦ rw p (
      All-keep_if x.id x ((j, y) ∷ rest) (inl r)
        (above-Free x.id x.id high ((j, y) ∷ rest) (omega arith) (ltb→< x.id j p, b, c, d)))
  | inr p ↦ elim (Bool-cases (x.id == j)) [
    | inl q ↦
        rw (p, q) (All-keep_if x.id x rest (inl r) (above-Free x.id j high rest (ground arith) d))
    | inr q ↦
        rw (p, q)
          (All-keep_if x.id y (insert x.id x rest) (inr (λ e. absurd (ground arith)))
            (insert-Free j high x rest r d))
  ]
]

-- In a store whose ids are in order, an update with a rolled back snapshot leaves no pending
-- snapshot with its id, and the ids in order.
pub pending-rolled_back :
    (x : MutationSnapshot) (s : MemorySnapshotStore)
    → IsKept s
    → x.rolled_back ≡ true
    → (update x s).1 ≡ ok tt
    → All (λ y. y.id ≢ x.id) (pending (update x s).0)
unfolding pending update
pending-rolled_back x s k r h = elim (Bool-cases (contains_key x.id s.snapshots)) [
  | inl p ↦ rw p (insert-Free 0 s.next_id x s.snapshots (ground arith) k)
  | inr p ↦ absurd (ground arith)
]

contains_key-bounds :
    (k low high : ℕ) (es : Entries)
    → contains_key k es ≡ true
    → InOrder low high es
    → (low < k) × (k ≤ high)
unfolding contains_key
contains_key-bounds k low high [] h o = absurd (cc)
contains_key-bounds k low high ((j, y) ∷ rest) h (a, b, c, d) = elim (Bool-cases (k == j)) [
  | inl p ↦ (ground arith, ground arith)
  | inr p ↦ let (u, v) = contains_key-bounds k j high rest (ground arith) d in (ground arith, v)
]

wrapping_add-one : (a : ℕ) → a < u64_max → wrapping_add a 1 ≡ a + 1
wrapping_add-one a h = omega arith

-- In a store whose ids are in order, the last of them below the greatest number of 64 bits,
-- `persist` gives a new id, above all the others, and both `persist` and `update` keep the order;
-- a refused `update` changes nothing.
pub store-IsKept :
    (x : MutationSnapshot) (s : MemorySnapshotStore)
    → IsKept s
    → s.next_id < u64_max
    → IsKept (persist x s).0
      × ((persist x s).1 ≡ ok (s.next_id + 1))
      × (contains_key (s.next_id + 1) s.snapshots ≡ false)
      × IsKept (update x s).0
      × (((update x s).1 ≡ ok tt) ⊎ ((update x s).0 ≡ s))
unfolding persist update
store-IsKept x s k small = (
  rw (wrapping_add-one s.next_id small) (
      insert-InOrder 0 (s.next_id + 1) (s.next_id + 1) _ s.snapshots (omega arith) (omega arith)
        refl (InOrder-weaken 0 s.next_id (s.next_id + 1) s.snapshots (omega arith) k)),
  rw (wrapping_add-one s.next_id small) refl,
  fresh (Bool-cases (contains_key (s.next_id + 1) s.snapshots)),
  kept (Bool-cases (contains_key x.id s.snapshots)),
  ground arith,
)
  where
    fresh :
        (contains_key (s.next_id + 1) s.snapshots ≡ true)
          ⊎ (contains_key (s.next_id + 1) s.snapshots ≡ false)
        → contains_key (s.next_id + 1) s.snapshots ≡ false
    fresh (inl p) =
        let (_, l) = contains_key-bounds (s.next_id + 1) 0 s.next_id s.snapshots p k in
        absurd (omega arith)
    fresh (inr p) = p

    kept :
        (contains_key x.id s.snapshots ≡ true) ⊎ (contains_key x.id s.snapshots ≡ false)
        → IsKept (update x s).0
    kept (inl p) =
        let (l, h) = contains_key-bounds x.id 0 s.next_id s.snapshots p k in
        rw p (insert-InOrder 0 s.next_id x.id x s.snapshots l h refl k)
    kept (inr p) = rw p k
