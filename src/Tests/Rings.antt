-- ===== src/Tests/Rings.antt =====
-- toolkit/source/efficient/annularcache.cpp on a ring of four bytes whose positions wrap.
use m_toolkit.Base.{
  min, zero, suc, ℕ, ◌-◌, ◌≡◌, refl, List, [], ◌∷◌, ◌++◌, length, take, drop, arith,
}
use m_toolkit.Efficient.AnnularCache.{AnnularCache, push, pop}
use m_toolkit.Efficient.AnnularCache.Spec.{IsValid, contents}
use m_toolkit.Efficient.AnnularCache.Laws.{push-contents, pop-contents}

-- Two bytes wait, one on each side of the wrap of the positions.
abbrev wrapping : AnnularCache
wrapping = record { w = 1; r = 0xffff_ffff; size = 4; cache = 11 ∷ 12 ∷ 13 ∷ 14 ∷ [] }

wrapping-IsValid : IsValid wrapping
wrapping-IsValid = record {
  exponent = 2;
  is_power = refl;
  fits = omega arith;
  filled = refl;
  w_word = omega arith;
  r_word = omega arith;
  bounded = ground arith;
}

contents-wrapping : contents wrapping ≡ 14 ∷ 11 ∷ []
contents-wrapping = refl

abbrev more : List ℕ
more = 21 ∷ 22 ∷ 23 ∷ []

push-contents_example :
    ((push wrapping more 3).1 ≡ min 3 (4 - length (contents wrapping)))
    × (contents (push wrapping more 3).0
        ≡ contents wrapping ++ take (min 3 (4 - length (contents wrapping))) more)
    × IsValid (push wrapping more 3).0
push-contents_example = push-contents wrapping wrapping-IsValid more 3 (ground arith)

pop-contents_example :
    ((pop wrapping more 3).1.1 ≡ min 3 (length (contents wrapping)))
    × ((pop wrapping more 3).1.0
        ≡ take (min 3 (length (contents wrapping))) (contents wrapping)
          ++ drop (min 3 (length (contents wrapping))) more)
    × (contents (pop wrapping more 3).0
        ≡ drop (min 3 (length (contents wrapping))) (contents wrapping))
    × IsValid (pop wrapping more 3).0
pop-contents_example = pop-contents wrapping wrapping-IsValid more 3 (ground arith)

-- Memory that comes cleared.
abbrev zeros : ℕ → List ℕ
zeros zero = []
zeros (suc n) = 0 ∷ zeros n

length-zeros : (n : ℕ) → length (zeros n) ≡ n
length-zeros zero = refl
length-zeros (suc n) = ground (arith, length-zeros n)
