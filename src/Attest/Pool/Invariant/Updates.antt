-- ===== src/Attest/Pool/Invariant/Updates.antt =====
-- The invariant on the two vote maps, and the four ways in which the pool changes them.
use padi_chain.Base.{
  ℕ, ◌<◌, ◌≡◌, refl, ap, true, false, ◌&&◌, List, [], Option, none, some, arith, ◌==◌,
  if◌then◌else◌, Bool-cases, inl, inr,
}
use padi_chain.Base.Maps.{
  Dict, lookup, contains, insert, erase, lookup-insert, lookup-erase, contains-insert,
  contains-erase, Distinct, insert-Distinct, erase-Distinct,
}
use padi_chain.Attest.Bitfield.Laws.{holds}
use padi_chain.Attest.Vote.{Attestation}
use padi_chain.Attest.Pool.{at_height, votes_for, put_vote, drop_vote, Votes, erase_all}
use padi_chain.Attest.Pool.Maps.{votes_for-put_vote, votes_for-drop_vote, at_height-erase_all}

-- The block that a validator voted for at a height.
abbrev pub block_in : ℕ → Dict Attestation → Option ℕ
block_in i cast = elim (lookup i cast) [ none ↦ none | some a ↦ some a.block_hash ]

abbrev pub cast_for : Dict (Dict Attestation) → ℕ → ℕ → Option ℕ
cast_for by_index h i = block_in i (at_height h by_index)

pub record IsSound (n : ℕ) (votes : Dict (Dict Votes)) (by_index : Dict (Dict Attestation))
    : Type 0 where
  pub cast : (h b i : ℕ) → contains i (votes_for votes h b) ≡ true → cast_for by_index h i ≡ some b
  pub in_range : (h b i : ℕ) → contains i (votes_for votes h b) ≡ true → i < n
  pub distinct : (h b : ℕ) → Distinct (votes_for votes h b)

module _ {n : ℕ} {votes : Dict (Dict Votes)} {by_index : Dict (Dict Attestation)}
    (sound : IsSound n votes by_index) where
  module _ (h b i : ℕ) (s : List ℕ) (a : Attestation) (range : i < n)
      (new : lookup i (at_height h by_index) ≡ none) (target : a.block_hash ≡ b) where
    put_contains :
        (h' b' j : ℕ)
        → contains j (votes_for (put_vote votes h b i s) h' b') ≡ (
            if (h' == h) && (b' == b)
            then (if j == i then true else contains j (votes_for votes h b))
            else contains j (votes_for votes h' b'))
    put_contains h' b' j = elim (Bool-cases ((h' == h) && (b' == b))) [
      | inl here ↦ rw (votes_for-put_vote votes h b i h' b' s, here, contains-insert j i s) refl
      | inr other ↦ rw (votes_for-put_vote votes h b i h' b' s, other) refl
    ]

    put_cast :
        (h' j : ℕ)
        → cast_for (insert h (insert i a (at_height h by_index)) by_index) h' j
          ≡ (if (h' == h) && (j == i) then some b else cast_for by_index h' j)
    put_cast h' j = ground (
      arith,
      lookup-insert h' h (insert i a (at_height h by_index)) by_index,
      lookup-insert j i a (at_height h by_index),
      target,
    )

    put-Distinct : (h' b' : ℕ) → Distinct (votes_for (put_vote votes h b i s) h' b')
    put-Distinct h' b' = elim (Bool-cases ((h' == h) && (b' == b))) [
      | inl here ↦
          rw (votes_for-put_vote votes h b i h' b' s, here)
            (insert-Distinct i s (votes_for votes h b) (sound.distinct h b))
      | inr other ↦ rw (votes_for-put_vote votes h b i h' b' s, other) (sound.distinct h' b')
    ]

    -- A first vote is counted for its block.
    pub put-IsSound :
        IsSound n (put_vote votes h b i s) (insert h (insert i a (at_height h by_index)) by_index)
    put-IsSound = record {
      cast = λ h' b' j e.
          ground (arith, put_contains h' b' j, put_cast h' j, sound.cast h' b' j, sound.cast h b j);
      in_range = λ h' b' j e.
          ground (arith, put_contains h' b' j, sound.in_range h' b' j, sound.in_range h b j);
      distinct = put-Distinct;
    }

  module _ (h b i : ℕ) where
    pub drop_contains :
        (h' b' j : ℕ)
        → contains j (votes_for (drop_vote votes h b i) h' b') ≡ (
            if (h' == h) && (b' == b)
            then (if j == i then false else contains j (votes_for votes h b))
            else contains j (votes_for votes h' b'))
    drop_contains h' b' j = elim (Bool-cases ((h' == h) && (b' == b))) [
      | inl here ↦ rw (votes_for-drop_vote votes h b i h' b', here, contains-erase j i) refl
      | inr other ↦ rw (votes_for-drop_vote votes h b i h' b', other) refl
    ]

    drop-Distinct : (h' b' : ℕ) → Distinct (votes_for (drop_vote votes h b i) h' b')
    drop-Distinct h' b' = elim (Bool-cases ((h' == h) && (b' == b))) [
      | inl here ↦
          rw (votes_for-drop_vote votes h b i h' b', here)
            (erase-Distinct i (votes_for votes h b) (sound.distinct h b))
      | inr other ↦ rw (votes_for-drop_vote votes h b i h' b', other) (sound.distinct h' b')
    ]

    -- A vote that is dropped may stay cast.
    pub drop-IsSound : IsSound n (drop_vote votes h b i) by_index
    drop-IsSound = record {
      cast =
          λ h' b' j e. ground (arith, drop_contains h' b' j, sound.cast h' b' j, sound.cast h b j);
      in_range = λ h' b' j e.
          ground (arith, drop_contains h' b' j, sound.in_range h' b' j, sound.in_range h b j);
      distinct = drop-Distinct;
    }

    erase_cast :
        (h' j : ℕ)
        → cast_for (insert h (erase i (at_height h by_index)) by_index) h' j
          ≡ (if (h' == h) && (j == i) then none else cast_for by_index h' j)
    erase_cast h' j = ground (
      arith,
      lookup-insert h' h (erase i (at_height h by_index)) by_index,
      lookup-erase j i (at_height h by_index),
    )

    -- An evicted vote is neither counted nor cast, if it was counted for this block.
    pub evict-IsSound :
        ((c : ℕ) → contains i (votes_for votes h c) ≡ true → c ≡ b)
        → IsSound n (drop_vote votes h b i) (insert h (erase i (at_height h by_index)) by_index)
    evict-IsSound only = record {
      cast = λ h' b' j e. ground (
        arith,
        drop_contains h' b' j,
        erase_cast h' j,
        sound.cast h' b' j,
        sound.cast h b j,
        only b',
      );
      in_range = λ h' b' j e.
          ground (arith, drop_contains h' b' j, sound.in_range h' b' j, sound.in_range h b j);
      distinct = drop-Distinct;
    }

  votes_for-erase_all :
      (ks : List ℕ) (h b : ℕ)
      → votes_for (erase_all ks votes) h b ≡ (if holds h ks then [] else votes_for votes h b)
  votes_for-erase_all ks h b = elim (Bool-cases (holds h ks)) [
    | inl gone ↦ rw (at_height-erase_all h ks votes, gone) refl
    | inr kept ↦ rw (at_height-erase_all h ks votes, kept) refl
  ]

  prune-Distinct : (ks : List ℕ) (h b : ℕ) → Distinct (votes_for (erase_all ks votes) h b)
  prune-Distinct ks h b = elim (Bool-cases (holds h ks)) [
    | inl gone ↦ rw (votes_for-erase_all ks h b, gone) tt
    | inr kept ↦ rw (votes_for-erase_all ks h b, kept) (sound.distinct h b)
  ]

  prune_cast :
      (ks : List ℕ) (h j : ℕ)
      → holds h ks ≡ false
      → cast_for (erase_all ks by_index) h j ≡ cast_for by_index h j
  prune_cast ks h j kept =
      let e : at_height h (erase_all ks by_index) ≡ at_height h by_index =
        rw (at_height-erase_all h ks by_index, kept) refl in
      ap (block_in j) e

  -- Whole heights may be forgotten.
  pub prune-IsSound : (ks : List ℕ) → IsSound n (erase_all ks votes) (erase_all ks by_index)
  prune-IsSound ks = record {
    cast =
        λ h b j e. ground (arith, votes_for-erase_all ks h b, prune_cast ks h j, sound.cast h b j);
    in_range = λ h b j e. ground (arith, votes_for-erase_all ks h b, sound.in_range h b j);
    distinct = prune-Distinct ks;
  }
