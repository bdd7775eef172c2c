-- ===== src/Device/Markers.antt =====
-- The two state markers of lib/device_generation_lifecycle.py as one register: what it holds is what
-- `read_state_record` answers, and a loss of power leaves the old value or the new one.
use opemos.Prelude.{
  ℕ, suc, ◌-◌, ◌%◌, ◌≤◌, ◌<◌, String, ◌≡◌, refl, ◌∙◌, subst, inl, inr, true, false, not, ◌&&◌,
  Option, none, some, List, eq_refl, ◌==◌, ltb, leb, arith, Bool-cases,
}
use opemos.Prelude.Regex.{matches}
use opemos.Prelude.Results.{Result, ok, err, >>=-eq-ok, >>-eq-ok, need-eq-ok, ok-injective}
use opemos.Prelude.Results
use opemos.Durable.Triples.{
  Triple, Triple-pure, Triple-gets_then, Triple-ask_then, Triple-need_then, Triple-write_then,
}
use opemos.Generation.Fields.{max_sequence, sha256}
use opemos.Generation.Activation.{is_none}
use opemos.Device.Contract.{State, valid_state, state_json, state_hash}
use opemos.Generation.Documents.{canonical}
use opemos.Device.Store.{Marker, Store, read_marker, read_legacy, select, read_state_record}
use opemos.Device.Register.{put_marker, has_marker, remove_legacy, write_state}

module _ (digest : List ℕ → String) where
  -- The store holds this state at this revision, in its markers alone.
  pub record IsAt (s : State) (r : ℕ) (w : Store) : Type 0 where
    pub valid_a : read_marker digest w.marker_a ≡ ok w.marker_a
    pub valid_b : read_marker digest w.marker_b ≡ ok w.marker_b
    pub top : Marker
    pub selected : select w.marker_a w.marker_b ≡ ok (some top)
    pub state : top.state ≡ s
    pub revision : top.revision ≡ r
    pub legacy : w.legacy ≡ none

  pub IsAt-has_marker : (s : State) (r : ℕ) (w : Store) → IsAt s r w → has_marker w ≡ true
  unfolding select
  IsAt-has_marker s r w h = some_there w.marker_a w.marker_b h.top h.selected
    where
      some_there :
          (a b : Option Marker) (top : Marker)
          → select a b ≡ ok (some top)
          → not (is_none a && is_none b) ≡ true
      some_there none none top e = cc e
      some_there none (some b) top e = refl
      some_there (some a) b top e = refl

  -- The other files do not matter.
  pub IsAt-move :
      (s : State) (r : ℕ) (w v : Store)
      → v.marker_a ≡ w.marker_a
      → v.marker_b ≡ w.marker_b
      → v.legacy ≡ w.legacy
      → IsAt s r w
      → IsAt s r v
  IsAt-move s r w v a b l h = record {
    valid_a = rw a h.valid_a;
    valid_b = rw b h.valid_b;
    top = h.top;
    selected = rw (a, b) h.selected;
    state = h.state;
    revision = h.revision;
    legacy = l ∙ h.legacy;
  }

  pub read_state_record-IsAt :
      (s : State) (r : ℕ) (w : Store) → IsAt s r w → read_state_record digest w ≡ ok (s, r)
  unfolding read_state_record read_legacy
  read_state_record-IsAt s r w h =
      rw (h.valid_a, h.valid_b, h.selected, h.legacy, h.state, h.revision) refl

-- No marker is above the number.
abbrev UpTo : Option Marker → ℕ → Type 0
UpTo none n = Unit
UpTo (some m) n = m.revision ≤ n

select-UpTo :
    (a b : Option Marker) (top : Marker)
    → select a b ≡ ok (some top)
    → UpTo a top.revision × UpTo b top.revision
unfolding select
select-UpTo none none top h = cc h
select-UpTo (some a) none top h =
    (subst (λ (m : Marker). a.revision ≤ m.revision) (same a top h) (omega arith), tt)
  where
    same : (a b : Marker) → ok (some a) ≡ ok (some b) → a ≡ b
    same a b e = cc e
select-UpTo none (some b) top h =
    (tt, subst (λ (m : Marker). b.revision ≤ m.revision) (same b top h) (omega arith))
  where
    same : (a b : Marker) → ok (some a) ≡ ok (some b) → a ≡ b
    same a b e = cc e
select-UpTo (some a) (some b) top h =
    let (differ, h1) = >>-eq-ok (Results.need (not (a.revision == b.revision)) _) _ h in
    elim (Bool-cases (ltb a.revision b.revision)) [
      | inl e ↦ on b (rw e at h1) (omega (arith, below a.revision b.revision e)) (omega arith)
      | inr e ↦ on a (rw e at h1) (omega arith) (above a.revision b.revision e)
    ]
  where
    below : (m n : ℕ) → ltb m n ≡ true → m < n
    below m n e = ground (arith, e)

    above : (m n : ℕ) → ltb m n ≡ false → n ≤ m
    above m n e = ground (arith, e)

    on :
        (m : Marker)
        → ok (some m) ≡ ok (some top)
        → a.revision ≤ m.revision
        → b.revision ≤ m.revision
        → (a.revision ≤ top.revision) × (b.revision ≤ top.revision)
    on m e f g =
        subst (λ (n : Marker). (a.revision ≤ n.revision) × (b.revision ≤ n.revision)) (same m top e)
          (f, g)
      where
        same : (a b : Marker) → ok (some a) ≡ ok (some b) → a ≡ b
        same a b e = cc e

select-new_a :
    (m : Marker) (o : Option Marker) (r : ℕ)
    → m.revision ≡ suc r
    → UpTo o r
    → select (some m) o ≡ ok (some m)
unfolding select
select-new_a m none r e h = refl
select-new_a m (some b) r e h =
    rw
      (
        differs m.revision b.revision (omega (arith, e, h)),
        keeps m.revision b.revision (omega (arith, e, h)),
      )
      refl
  where
    differs : (m n : ℕ) → n < m → (m == n) ≡ false
    differs m n h = ground (arith, h)

    keeps : (m n : ℕ) → n < m → ltb m n ≡ false
    keeps m n h = ground (arith, h)

select-new_b :
    (m : Marker) (o : Option Marker) (r : ℕ)
    → m.revision ≡ suc r
    → UpTo o r
    → select o (some m) ≡ ok (some m)
unfolding select
select-new_b m none r e h = refl
select-new_b m (some b) r e h =
    rw
      (
        differs m.revision b.revision (omega (arith, e, h)),
        takes m.revision b.revision (omega (arith, e, h)),
      )
      refl
  where
    differs : (m n : ℕ) → n < m → (n == m) ≡ false
    differs m n h = ground (arith, h)

    takes : (m n : ℕ) → n < m → ltb n m ≡ true
    takes m n h = ground (arith, h)

-- What is known of SHA-256: its digests are 64 hexadecimal digits.
abbrev pub IsHex : (List ℕ → String) → Type 0
IsHex digest = (bytes : List ℕ) → matches sha256 (digest bytes) ≡ true

module _ (digest : List ℕ → String) (hex : IsHex digest) where
  abbrev pub marker_of : State → ℕ → Marker
  marker_of s r = record { revision = r; state_sha256 = state_hash digest s; state = s }

  read_marker-marker_of :
      (s : State) (r : ℕ)
      → valid_state s ≡ true
      → r < max_sequence
      → read_marker digest (some (marker_of s (suc r))) ≡ ok (some (marker_of s (suc r)))
  unfolding read_marker
  read_marker-marker_of s r h l =
      rw
        (
          in_range r max_sequence l,
          hex (canonical (state_json s)),
          h,
          eq_refl (state_hash digest s),
        )
        refl
    where
      in_range : (m n : ℕ) → m < n → (leb 1 (suc m) && leb (suc m) n) ≡ true
      in_range m n l = ground (arith, l)

  IsAt-put_marker :
      (s t : State) (r : ℕ) (w : Store)
      → IsAt digest s r w
      → valid_state t ≡ true
      → r < max_sequence
      → IsAt digest t (suc r) (put_marker (marker_of t (suc r)) w)
  IsAt-put_marker s t r w h v l = elim (Bool-cases ((suc r - 1) % 2 == 0)) [
    | inl e ↦ rw e (record {
      valid_a = read_marker-marker_of t r v l;
      valid_b = h.valid_b;
      top = marker_of t (suc r);
      selected = select-new_a (marker_of t (suc r)) w.marker_b r refl bounds.1;
      state = refl;
      revision = refl;
      legacy = h.legacy;
    })
    | inr e ↦ rw e (record {
      valid_a = h.valid_a;
      valid_b = read_marker-marker_of t r v l;
      top = marker_of t (suc r);
      selected = select-new_b (marker_of t (suc r)) w.marker_a r refl bounds.0;
      state = refl;
      revision = refl;
      legacy = h.legacy;
    })
  ]
    where
      bounds : UpTo w.marker_a r × UpTo w.marker_b r
      bounds =
          subst (λ n. UpTo w.marker_a n × UpTo w.marker_b n) h.revision
            (select-UpTo w.marker_a w.marker_b h.top h.selected)

  -- What `put_marker` does not touch.
  abbrev pub IsApart : (Store → Type 0) → Type 0
  IsApart R = (m : Marker) (w : Store) → R w → R (put_marker m w)

  pub Triple-remove_legacy :
      (s : State) (r : ℕ) (R C : Store → Type 0)
      → Triple 0 (λ w. IsAt digest s r w × R w) remove_legacy (λ _ w. IsAt digest s r w × R w) C
  unfolding remove_legacy
  Triple-remove_legacy s r R C = Triple-gets_then 0 _ none _ (λ w h. h.0.legacy) (Triple-pure _ tt)

  -- `write_state` as an atomic write of a register.
  pub Triple-write_state :
      (s t : State) (r : ℕ) (R : Store → Type 0)
      → IsApart R
      → valid_state t ≡ true
      → r < max_sequence
      → Triple 1
          (λ w. IsAt digest s r w × R w)
          (write_state digest t)
          (λ _ w. IsAt digest t (suc r) w × R w)
          (λ w. IsAt digest s r w × R w)
  unfolding write_state
  Triple-write_state s t r R apart v l =
      Triple-need_then 1 _ _ (λ w h. v)
        (Triple-ask_then 1 _ (s, r) _ (λ w h. read_state_record-IsAt digest s r w h.0)
          (Triple-need_then 1 _ _ (λ w h. small r max_sequence l)
            (Triple-write_then 0 _ _ (λ w. IsAt digest t (suc r) w × R w)
              (λ w h. (IsAt-put_marker s t r w h.0 v l, apart (marker_of t (suc r)) w h.1))
              (λ w h. h) (Triple-remove_legacy t (suc r) R _))))
    where
      small : (m n : ℕ) → m < n → ltb m n ≡ true
      small m n l = ground (arith, l)
