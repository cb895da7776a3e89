-- ===== src/Core/Stream/Since.antt =====
-- The part of a gap-free log from a number on.
use novig_take_home.Base.{
  ℕ, suc, ◌+◌, ◌≤◌, ◌<◌, ◌≡◌, refl, sym, ap, ◌∙◌, subst, List, [], ◌∷◌, ◌++◌, arith, if◌then◌else◌,
  leb, Bool-cases, inl, inr,
}
use novig_take_home.Base.Int.{ℤ, pos, leb_ℤ}
use novig_take_home.Base.Lists.{length}
use novig_take_home.Domain.{ReplicationEvent}
use novig_take_home.Core.EventStore.{select_from}
use novig_take_home.Core.EventStore.Log.{
  Sequenced, Sequenced-length, select_from_all, select_from_skip, select_from-Split,
}

unfoldable pub since : ℤ → List ReplicationEvent → List ReplicationEvent
since k [] = []
since k (x ∷ xs) = if leb_ℤ k x.seq then x ∷ since k xs else since k xs

pub since-append :
    (k : ℤ) (xs ys : List ReplicationEvent) → since k (xs ++ ys) ≡ since k xs ++ since k ys
unfolding since
since-append k [] ys = refl
since-append k (x ∷ xs) ys = ground (arith, since-append k xs ys)

pub since-all :
    (j lo hi : ℕ) (xs : List ReplicationEvent)
    → j ≤ lo
    → Sequenced lo xs hi
    → since (pos (suc j)) xs ≡ xs
unfolding since
since-all j lo hi [] h s = refl
since-all j lo hi (x ∷ xs) h s = ground (arith, since-all j (suc lo) hi xs (omega arith) s.1, s.0)

pub since-none :
    (j lo hi : ℕ) (xs : List ReplicationEvent)
    → hi ≤ j
    → Sequenced lo xs hi
    → since (pos (suc j)) xs ≡ []
unfolding since
since-none j lo hi [] h s = refl
since-none j lo hi (x ∷ xs) h s =
    ground (arith, since-none j (suc lo) hi xs h s.1, s.0, Sequenced-length (suc lo) hi xs s.1)

-- The read of a gap-free log is the part from that number on, in reach or not.
pub select_from-since :
    (j lo hi : ℕ) (xs : List ReplicationEvent)
    → Sequenced lo xs hi
    → select_from (pos (suc j)) xs ≡ since (pos (suc j)) xs
unfolding since
select_from-since j lo hi [] s = unfold select_from in refl
select_from-since j lo hi (x ∷ xs) s = elim (Bool-cases (leb j lo)) [
  | inl in_reach ↦
      let low : j ≤ lo = ground (arith, in_reach) in
      select_from_all (suc j) lo hi (x ∷ xs) (omega arith) s
      ∙ sym (since-all j lo hi (x ∷ xs) low s)
  | inr before ↦
      let high : lo < j = ground (arith, before) in
      select_from_skip (suc j) lo x xs (omega arith) s.0
      ∙ ground (arith, select_from-since j (suc lo) hi xs s.1, s.0)
]

pub since-since :
    (j k : ℕ) (xs : List ReplicationEvent)
    → j ≤ k
    → since (pos (suc k)) (since (pos (suc j)) xs) ≡ since (pos (suc k)) xs
unfolding since
since-since j k [] h = refl
since-since j k (x ∷ xs) h = ground (arith, since-since j k xs h)

-- A part of a log, and where it stands.
pub Sequenced-split :
    (lo hi : ℕ) (xs ys : List ReplicationEvent)
    → Sequenced lo (xs ++ ys) hi
    → Sequenced lo xs (lo + length xs) × Sequenced (lo + length xs) ys hi
Sequenced-split lo hi [] ys s = (omega arith, subst (λ z. Sequenced z ys hi) (omega arith) s)
Sequenced-split lo hi (x ∷ xs) ys s =
    let (a, b) = Sequenced-split (suc lo) hi xs ys s.1 in
    let e : suc lo + length xs ≡ lo + suc (length xs) = omega arith in
    ((s.0, subst (λ z. Sequenced (suc lo) xs z) e a), subst (λ z. Sequenced z ys hi) e b)

-- An event in the log: its number is its place, and the part from its number on starts with it.
pub since-at :
    (n : ℕ) (pre : List ReplicationEvent) (evt : ReplicationEvent) (post : List ReplicationEvent)
    → Sequenced 0 (pre ++ evt ∷ post) n
    → (evt.seq ≡ pos (suc (length pre)))
      × (since (pos (suc (length pre))) (pre ++ evt ∷ post) ≡ evt ∷ post)
since-at n pre evt post s =
    let (a, b) = Sequenced-split 0 n pre (evt ∷ post) s in
    let e : 0 + length pre ≡ length pre = omega arith in
    let b' = subst (λ z. Sequenced z (evt ∷ post) n) e b in
    (
      b'.0,
      since-append (pos (suc (length pre))) pre (evt ∷ post)
          ∙ ap (λ z. z ++ since (pos (suc (length pre))) (evt ∷ post))
              (since-none (length pre) 0 (0 + length pre) pre (omega arith) a)
          ∙ since-all (length pre) (length pre) n (evt ∷ post) (omega arith) b',
    )

pub Sequenced-since :
    (j lo hi : ℕ) (xs : List ReplicationEvent)
    → lo ≤ j
    → j ≤ hi
    → Sequenced lo xs hi
    → Sequenced j (since (pos (suc j)) xs) hi
Sequenced-since j lo hi xs h k s =
    subst (λ z. Sequenced j z hi) (select_from-since j lo hi xs s)
      (select_from-Split lo j hi xs h k s).later

first_skipped :
    (j n : ℕ) (evt : ReplicationEvent) (rest : List ReplicationEvent)
    → Sequenced j (evt ∷ rest) n
    → since (pos (suc (suc j))) (evt ∷ rest) ≡ rest
unfolding since
first_skipped j n evt rest s =
    ground (arith, s.0, since-all (suc j) (suc j) n rest (omega arith) s.1)

-- The first event of a part that is not empty has the number that was asked for, and the rest is
-- the part from the next number on.
pub since-cons :
    (j n : ℕ) (xs : List ReplicationEvent) (evt : ReplicationEvent) (rest : List ReplicationEvent)
    → Sequenced 0 xs n
    → since (pos (suc j)) xs ≡ evt ∷ rest
    → (evt.seq ≡ pos (suc j)) × (since (pos (suc (suc j))) xs ≡ rest) × (j < n)
since-cons j n xs evt rest s e = elim (Bool-cases (leb n j)) [
  | inl beyond ↦ absurd (cc (sym (since-none j 0 n xs (ground (arith, beyond)) s) ∙ e))
  | inr within ↦
      let low : j < n = ground (arith, within) in
      let t =
        subst (λ z. Sequenced j z n) e (Sequenced-since j 0 n xs (omega arith) (omega arith) s) in
      (
        t.0,
        sym (since-since j (suc j) xs (omega arith))
            ∙ ap (since (pos (suc (suc j)))) e
            ∙ first_skipped j n evt rest t,
        low,
      )
]
