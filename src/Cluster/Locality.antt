-- ===== src/Cluster/Locality.antt =====
-- What `resolve_locality` of crates/queryfabric-cluster/src/routing.rs does with the ids it is given.
use queryfabric.Base.{
  ==_sound, All, Bool, Bool-cases, IsNodup, List, Option-cases, [], ap, append-nil, append_assoc,
  arith, false, if◌then◌else◌, inl, inr, insert, keep, keep-cons, lookup, lookup-insert, map,
  nat_eq, none, refl, some, subst, sym, true, ℕ, ◌++◌, ◌==◌, ◌∙◌, ◌∷◌, ◌≡◌,
}
use queryfabric.Cluster.Routing.{
  Partition, RemoteGroup, ResourceLocation, group_of, ids_at, locality_loop, place,
  resolve_locality,
}

abbrev pub is_local : List (ℕ × ResourceLocation) → ℕ → Bool
is_local index id = elim (lookup id index) [ none ↦ true | some loc ↦ false ]

abbrev pub is_located : List (ℕ × ResourceLocation) → ℕ → ℕ → Bool
is_located index cluster id = elim (lookup id index) [
  | none ↦ false
  | some loc ↦ loc.cluster_id == cluster
]

-- The ids of all groups of a cluster.
abbrev pub collected : ℕ → List RemoteGroup → List ℕ
collected cluster [] = []
collected cluster (g ∷ gs) =
    if g.cluster_id == cluster then g.resource_ids ++ collected cluster gs else collected cluster gs

abbrev keys : List (ℕ × List ℕ) → List ℕ
keys m = map (λ (p : ℕ × List ℕ). p.0) m

insert-keys :
    (P : ℕ → Type 0) (k : ℕ) (v : List ℕ) (m : List (ℕ × List ℕ))
    → P k
    → All P (keys m)
    → All P (keys (insert k v m))
insert-keys P k v [] p all = (p, tt)
insert-keys P k v ((j, w) ∷ m) p all = elim (Bool-cases (j == k)) [
  | inl same ↦ rw same (p, all.1)
  | inr other ↦ rw other (all.0, insert-keys P k v m p all.1)
]

insert-IsNodup :
    (k : ℕ) (v : List ℕ) (m : List (ℕ × List ℕ)) → IsNodup (keys m) → IsNodup (keys (insert k v m))
insert-IsNodup k v [] d = (tt, tt)
insert-IsNodup k v ((j, w) ∷ m) d = elim (Bool-cases (j == k)) [
  | inl same ↦ rw (same, sym (==_sound j k same)) d
  | inr other ↦
      rw other (insert-keys (λ i. (j == i) ≡ false) k v m other d.0, insert-IsNodup k v m d.1)
]

collected_none :
    (c : ℕ) (m : List (ℕ × List ℕ))
    → All (λ j. (c == j) ≡ false) (keys m)
    → collected c (map group_of m) ≡ []
collected_none c [] h = refl
collected_none c ((j, v) ∷ m) h = ground (arith, collected_none c m h.1, h.0)

collected_lem :
    (c : ℕ) (m : List (ℕ × List ℕ)) → IsNodup (keys m) → collected c (map group_of m) ≡ ids_at c m
collected_lem c [] d = refl
collected_lem c ((j, v) ∷ m) d = elim (Bool-cases (j == c)) [
  | inl same ↦
      let none_later =
        collected_none c m
          (subst (λ i. All (λ y. (i == y) ≡ false) (keys m)) (==_sound j c same) d.0) in
      let alone = ap (λ l. v ++ l) none_later ∙ append-nil v in ground (arith, same, alone)
  | inr other ↦ ground (arith, other, collected_lem c m d.1)
]

ids_at-insert :
    (k c : ℕ) (v : List ℕ) (m : List (ℕ × List ℕ))
    → ids_at c (insert k v m) ≡ (if k == c then v else ids_at c m)
ids_at-insert k c v m = ground (arith, lookup-insert k c v m)

-- What placing ids does to a partition.
record Placed (index : List (ℕ × ResourceLocation)) (p : Partition) (ids : List ℕ) (q : Partition)
    : Type 0 where
  locals : q.0 ≡ p.0 ++ keep (is_local index) ids
  remotes : (c : ℕ) → ids_at c q.1 ≡ ids_at c p.1 ++ keep (is_located index c) ids
  distinct : IsNodup (keys p.1) → IsNodup (keys q.1)

place_remote :
    (k c id : ℕ) (m : List (ℕ × List ℕ))
    → ids_at c (insert k (ids_at k m ++ id ∷ []) m) ≡ ids_at c m ++ (if k == c then id ∷ [] else [])
place_remote k c id m = elim (Bool-cases (k == c)) [
  | inl same ↦ ids_at-insert k c (ids_at k m ++ id ∷ []) m ∙ (rw (same, ==_sound k c same) refl)
  | inr other ↦
      ids_at-insert k c (ids_at k m ++ id ∷ []) m ∙ rw other (sym (append-nil (ids_at c m)))
]

place_lem :
    (index : List (ℕ × ResourceLocation)) (p : Partition) (id : ℕ)
    → Placed index p (id ∷ []) (place index p id)
unfolding place
place_lem index p id = elim (Option-cases (lookup id index)) [
  | inl here ↦ record {
    locals = rw (here, place, is_local) refl;
    remotes = λ c. rw (here, place, is_located) (sym (append-nil (ids_at c p.1)));
    distinct = λ d. rw (here, place) d;
  }
  | inr (loc, there) ↦ record {
    locals = rw (there, place, is_local) (sym (append-nil p.0));
    remotes = λ c. rw (there, place, is_located) (place_remote loc.cluster_id c id p.1);
    distinct = λ d.
        rw (there, place)
          (insert-IsNodup loc.cluster_id (ids_at loc.cluster_id p.1 ++ id ∷ []) p.1 d);
  }
]

locality_loop_lem :
    (index : List (ℕ × ResourceLocation)) (p : Partition) (ids : List ℕ)
    → Placed index p ids (locality_loop index p ids)
unfolding locality_loop
locality_loop_lem index p [] = record {
  locals = sym (append-nil p.0);
  remotes = λ c. sym (append-nil (ids_at c p.1));
  distinct = λ d. d;
}
locality_loop_lem index p (id ∷ ids) =
    let first = place_lem index p id in
    let rest = locality_loop_lem index (place index p id) ids in
    let joined : (test : ℕ → Bool) (start : List ℕ)
        → (start ++ keep test (id ∷ [])) ++ keep test ids ≡ start ++ keep test (id ∷ ids) =
      λ test start.
        append_assoc start (keep test (id ∷ [])) (keep test ids)
        ∙ ap (λ l. start ++ l) (keep-cons test id ids) in
    record {
      locals =
          rest.locals
          ∙ ap (λ l. l ++ keep (is_local index) ids) first.locals
          ∙ joined (is_local index) p.0;
      remotes = λ c.
          rest.remotes c
          ∙ ap (λ l. l ++ keep (is_located index c) ids) (first.remotes c)
          ∙ joined (is_located index c) (ids_at c p.1);
      distinct = λ d. rest.distinct (first.distinct d);
    }

keys_of_groups :
    (m : List (ℕ × List ℕ)) → map (λ (g : RemoteGroup). g.cluster_id) (map group_of m) ≡ keys m
keys_of_groups [] = refl
keys_of_groups ((j, v) ∷ m) = ap (λ l. j ∷ l) (keys_of_groups m)

-- Resolving ids keeps those without a location as the local ones, and groups the others by the cluster
-- of their location, one group for a cluster; each group has the ids of its cluster and no others.
-- All lists have the order of the ids given, with their repetitions.
pub resolve_locality_lem :
    (index : List (ℕ × ResourceLocation)) (ids : List ℕ)
    → let d = resolve_locality index ids in
      (d.local_ids ≡ keep (is_local index) ids)
      × ((c : ℕ) → collected c d.remote ≡ keep (is_located index c) ids)
      × IsNodup (map (λ (g : RemoteGroup). g.cluster_id) d.remote)
unfolding resolve_locality
resolve_locality_lem index ids =
    let placed = locality_loop_lem index ([], []) ids in
    let m = (locality_loop index ([], []) ids).1 in
    let distinct = placed.distinct tt in
    (
      placed.locals,
      λ c. collected_lem c m distinct ∙ placed.remotes c,
      subst IsNodup (sym (keys_of_groups m)) distinct,
    )
