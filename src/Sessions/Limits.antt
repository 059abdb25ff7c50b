-- ===== src/Sessions/Limits.antt =====
-- The table of sessions stays within its limit, and makes room by the session that was idle longest.
use laskah.Prelude.{
  ℕ, ◌≤◌, ◌<◌, ◌≡◌, refl, sym, ap, subst, true, false, some, List, [], ◌∷◌, arith, inl, inr, ◌⊎◌,
  Bool-cases, ◌==◌, ltb, leb, leb→le, length, In, All, All-In,
}
use laskah.Prelude.Text.{Text, codes, text_eq, text_beq}
use laskah.Prelude.Maps.{
  lookup, delete, Distinct, delete-Distinct, delete_if-Distinct, In→lookup, All-delete,
  All-delete_if, length-delete-le, length-delete_if-le, length-delete-lt,
}
use laskah.Store.Model.{Time}
use laskah.Sessions.{
  Session, SessionStore, is_over, prune_locked, oldest_of, drop_oldest, make_room,
}

-- A digest is never empty.
abbrev pub Named : List (Text × Session) → Type 0
Named m = All (λ (x : Text × Session). (x.0 == codes "") ≡ false) m

pub record IsValid (s : SessionStore) : Type 0 where
  pub positive : 0 < s.max_count
  pub bounded : length s.sessions ≤ s.max_count
  pub distinct : Distinct s.sessions
  pub named : Named s.sessions

-- The digest that the loop ends with, and when its session was last seen.
pub record IsOldest (d : Text) (o : Time) (m : List (Text × Session)) (r : Text) (t : Time)
    : Type 0 where
  pub source : ((r ≡ d) × (t ≡ o)) ⊎ ((x : Session) × In (r, x) m × (x.last_seen ≡ t))
  pub least : All (λ (x : Text × Session). t ≤ x.1.last_seen) m
  pub below : t ≤ o

skip_IsOldest :
    (d : Text) (o : Time) (k : Text) (x : Session) (m : List (Text × Session)) (r : Text) (t : Time)
    → o ≤ x.last_seen
    → IsOldest d o m r t
    → IsOldest d o ((k, x) ∷ m) r t
skip_IsOldest d o k x m r t h v = record {
  source = from v.source;
  least = (omega (arith, v.below), v.least);
  below = v.below;
}
  where
    from :
        ((r ≡ d) × (t ≡ o)) ⊎ ((y : Session) × In (r, y) m × (y.last_seen ≡ t))
        → ((r ≡ d) × (t ≡ o)) ⊎ ((y : Session) × In (r, y) ((k, x) ∷ m) × (y.last_seen ≡ t))
    from (inl q) = inl q
    from (inr (y, i, q)) = inr (y, inr i, q)

source-In :
    (k : Text) (x : Session) (m : List (Text × Session)) (r : Text) (t : Time)
    → ((r ≡ k) × (t ≡ x.last_seen)) ⊎ ((y : Session) × In (r, y) m × (y.last_seen ≡ t))
    → (y : Session) × In (r, y) ((k, x) ∷ m) × (y.last_seen ≡ t)
source-In k x m r t (inl (p, q)) = (x, inl (ap (λ (z : Text). (z, x)) p), sym q)
source-In k x m r t (inr (y, i, q)) = (y, inr i, q)

take_IsOldest :
    (d : Text) (o : Time) (k : Text) (x : Session) (m : List (Text × Session)) (r : Text) (t : Time)
    → x.last_seen ≤ o
    → IsOldest k x.last_seen m r t
    → IsOldest d o ((k, x) ∷ m) r t
take_IsOldest d o k x m r t h v = record {
  source = inr (source-In k x m r t v.source);
  least = (v.below, v.least);
  below = omega (arith, v.below);
}

oldest_of-IsOldest :
    (d : Text) (o : Time) (m : List (Text × Session))
    → (d == codes "") ≡ false
    → Named m
    → (t : Time) × IsOldest d o m (oldest_of d o m) t
unfolding oldest_of
oldest_of-IsOldest d o [] n h =
    (o, record { source = inl (refl, refl); least = tt; below = omega arith })
oldest_of-IsOldest d o ((k, x) ∷ m) n h = elim (Bool-cases (ltb x.last_seen o)) [
  | inl e ↦
      let (t, v) = oldest_of-IsOldest k x.last_seen m h.0 h.1 in
      rw (n, e) (t, take_IsOldest d o k x m (oldest_of k x.last_seen m) t (ground arith) v)
  | inr e ↦
      let (t, v) = oldest_of-IsOldest d o m n h.1 in
      rw (n, e) (t, skip_IsOldest d o k x m (oldest_of d o m) t (ground arith) v)
]

abbrev pub SeenSince : Time → List (Text × Session) → Type 0
SeenSince t m = All (λ (x : Text × Session). t ≤ x.1.last_seen) m

-- The session that is dropped, and what is left.
pub record IsDropped (s s' : SessionStore) : Type 0 where
  pub digest : Text
  pub dropped : Session
  pub was_there : lookup digest s.sessions ≡ some dropped
  pub rest : s' ≡ record s { sessions = delete digest s.sessions }
  pub since : SeenSince dropped.last_seen s'.sessions

oldest_of_cons :
    (k : Text) (x : Session) (m : List (Text × Session))
    → Distinct ((k, x) ∷ m)
    → Named ((k, x) ∷ m)
    → (y : Session) × (lookup (oldest_of k x.last_seen m) ((k, x) ∷ m) ≡ some y)
      × SeenSince y.last_seen ((k, x) ∷ m)
      × ((oldest_of k x.last_seen m == codes "") ≡ false)
oldest_of_cons k x m d n =
    let (t, v) = oldest_of-IsOldest k x.last_seen m n.0 n.1 in
    let (y, i, q) = source-In k x m (oldest_of k x.last_seen m) t v.source in
    (
      y,
      In→lookup (oldest_of k x.last_seen m) y ((k, x) ∷ m) d i,
      subst (λ u. SeenSince u ((k, x) ∷ m)) (sym q) (v.below, v.least),
      All-In (λ (z : Text × Session). (z.0 == codes "") ≡ false) ((k, x) ∷ m) n i,
    )

drop_oldest-IsDropped :
    (s : SessionStore) (m : List (Text × Session))
    → s.sessions ≡ m
    → 0 < length m
    → Distinct m
    → Named m
    → IsDropped s (drop_oldest s)
unfolding drop_oldest oldest_of text_beq
drop_oldest-IsDropped s [] e h d n = absurd (omega arith)
drop_oldest-IsDropped s ((k, x) ∷ m) e h d n =
    let (y, found, since, named) = oldest_of_cons k x m d n in
    rw (e, named)
      (record {
        digest = oldest_of k x.last_seen m;
        dropped = y;
        was_there = found;
        rest = refl;
        since = All-delete _ (oldest_of k x.last_seen m) ((k, x) ∷ m) since;
      })

-- In a well-formed table with every place taken, making room deletes one session, and none that
-- stays was seen before it.
pub make_room_full :
    (s : SessionStore) → IsValid s → length s.sessions ≡ s.max_count → IsDropped s (make_room s)
unfolding make_room
make_room_full s v full =
    rw (let e : leb s.max_count (length s.sessions) ≡ true = ground arith in e)
      (drop_oldest-IsDropped s s.sessions refl (omega (arith, v.positive)) v.distinct v.named)

pub make_room-IsValid : (s : SessionStore) → IsValid s → IsValid (make_room s)
unfolding make_room drop_oldest
make_room-IsValid s v = elim (Bool-cases (leb s.max_count (length s.sessions))) [
  | inr e ↦ rw e v
  | inl e ↦
      let digest = oldest_of (codes "") 0 s.sessions in
      elim (Bool-cases (digest == codes "")) [
        | inl none_found ↦ rw (e, none_found) v
        | inr some_found ↦
            rw (e, some_found)
              (record {
                positive = v.positive;
                bounded = omega (arith, length-delete-le digest s.sessions, v.bounded);
                distinct = delete-Distinct digest s.sessions v.distinct;
                named = All-delete _ digest s.sessions v.named;
              })
      ]
]

pub make_room-room :
    (s : SessionStore) → IsValid s → length (make_room s).sessions < (make_room s).max_count
unfolding make_room
make_room-room s v = elim (Bool-cases (leb s.max_count (length s.sessions))) [
  | inl e ↦
      let some_left : s.max_count ≤ length s.sessions = leb→le _ _ e in
      let full : length s.sessions ≡ s.max_count = omega (arith, v.bounded, some_left) in
      let d =
        drop_oldest-IsDropped s s.sessions refl (omega (arith, v.positive, full)) v.distinct
          v.named in
      let shorter : length (delete d.digest s.sessions) < s.max_count =
        subst (λ (n : ℕ). length (delete d.digest s.sessions) < n) full
          (length-delete-lt d.digest d.dropped s.sessions d.was_there) in
      rw (e, d.rest) shorter
  | inr e ↦ rw e (let few : length s.sessions < s.max_count = ground arith in few)
]

pub prune_locked-IsValid :
    (s : SessionStore) (now : Time) → IsValid s → IsValid (prune_locked s now)
unfolding prune_locked
prune_locked-IsValid s now v = record {
  positive = v.positive;
  bounded = omega (arith, length-delete_if-le (is_over s now) s.sessions, v.bounded);
  distinct = delete_if-Distinct (is_over s now) s.sessions v.distinct;
  named = All-delete_if _ (is_over s now) s.sessions v.named;
}
