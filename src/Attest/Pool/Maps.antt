-- ===== src/Attest/Pool/Maps.antt =====
-- The nested maps of the pool: what each update does to each inner map.
use padi_chain.Base.{
  ℕ, ◌≡◌, refl, ◌&&◌, List, [], ◌∷◌, arith, ◌==◌, if◌then◌else◌, Bool-cases, inl, inr, ==_iff,
}
use padi_chain.Base.Maps.{Dict, insert, erase, lookup-insert, lookup-erase}
use padi_chain.Attest.Bitfield.Laws.{holds}
use padi_chain.Attest.Pool.{at_height, votes_for, put_vote, drop_vote, Votes, erase_all}

pub at_height-insert {ℓ} :
    {V : Type ℓ} (h n : ℕ) (m : Dict V) (d : Dict (Dict V))
    → at_height h (insert n m d) ≡ (if h == n then m else at_height h d)
at_height-insert h n m d = ground (arith, lookup-insert h n m d)

pub votes_for-put_vote :
    (votes : Dict (Dict Votes)) (n b i h c : ℕ) (s : List ℕ)
    → votes_for (put_vote votes n b i s) h c
      ≡ (if (h == n) && (c == b) then insert i s (votes_for votes n b) else votes_for votes h c)
unfolding put_vote
votes_for-put_vote votes n b i h c s = elim (Bool-cases (h == n)) [
  | inl same ↦
      let e : h ≡ n = (==_iff h n).0 same in
      rw (at_height-insert h n, same, at_height-insert c b, e) refl
  | inr other ↦ rw (at_height-insert h n, other) refl
]

pub votes_for-drop_vote :
    (votes : Dict (Dict Votes)) (n b i h c : ℕ)
    → votes_for (drop_vote votes n b i) h c
      ≡ (if (h == n) && (c == b) then erase i (votes_for votes n b) else votes_for votes h c)
unfolding drop_vote
votes_for-drop_vote votes n b i h c = elim (Bool-cases (h == n)) [
  | inl same ↦
      let e : h ≡ n = (==_iff h n).0 same in
      rw (at_height-insert h n, same, at_height-insert c b, e) refl
  | inr other ↦ rw (at_height-insert h n, other) refl
]

pub at_height-erase {ℓ} :
    {V : Type ℓ} (h n : ℕ) (d : Dict (Dict V))
    → at_height h (erase n d) ≡ (if h == n then [] else at_height h d)
at_height-erase h n d = ground (arith, lookup-erase h n d)

-- After the removal of some heights the rest is as it was.
pub at_height-erase_all {ℓ} :
    {V : Type ℓ} (h : ℕ) (ks : List ℕ) (d : Dict (Dict V))
    → at_height h (erase_all ks d) ≡ (if holds h ks then [] else at_height h d)
unfolding erase_all holds
at_height-erase_all h [] d = refl
at_height-erase_all h (k ∷ ks) d =
    ground (arith, at_height-erase_all h ks (erase k d), at_height-erase h k d)
