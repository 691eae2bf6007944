-- ===== src/Pack/Header/Distance.antt =====
-- OFS_DELTA distances: what `encodeOfsDeltaDistance` writes, `readPackHeaderExFromBuf` reads back.
use git_on_cloudflare.Base.{
  ℕ, zero, suc, ◌+◌, ◌-◌, ◌*◌, ◌/◌, ◌%◌, ◌^◌, ◌≤◌, ◌<◌, ◌≡◌, refl, sym, ap, ◌∙◌, subst, inl, inr,
  false, List, [], ◌∷◌, ◌++◌, reverse, some, ◌==◌, length, length-append, All, arith, Bool-cases,
  Option-cases,
}
use mathlib.Core.List.{reverse-cons}
use git_on_cloudflare.Pack.Header.{
  distance_groups, mark_groups, encode_ofs_delta_distance, count_groups, ofs_delta_distance_length,
  read_distance, read_distance_more,
}

-- The number that groups stand for, lowest first.
abbrev value : List ℕ → ℕ
value [] = 0
value (g ∷ []) = g
value (g ∷ h ∷ gs) = (value (h ∷ gs) + 1) * 128 + g

-- The number that groups stand for, highest first, behind `d`.
abbrev read_value : ℕ → List ℕ → ℕ
read_value d [] = d
read_value d (h ∷ hs) = read_value ((d + 1) * 128 + h) hs

abbrev big_value : List ℕ → ℕ
big_value [] = 0
big_value (h ∷ hs) = read_value h hs

abbrev IsGroup : ℕ → Type 0
IsGroup g = g < 128

-- What a distance with `k` groups at most stays below.
abbrev bound : ℕ → ℕ
bound zero = 0
bound (suc k) = 128 * (bound k + 1)

-- A list with an element in it.
record IsGrouped (fuel current : ℕ) : Type 0 where
  head : ℕ
  tail : List ℕ
  found : distance_groups fuel current ≡ some (head ∷ tail)
  small : All IsGroup (head ∷ tail)
  worth : value (head ∷ tail) ≡ current
  short : length (head ∷ tail) ≤ fuel

distance_groups-IsGrouped : (fuel current : ℕ) → current < bound fuel → IsGrouped fuel current
unfolding distance_groups
distance_groups-IsGrouped zero current h = absurd (omega arith)
distance_groups-IsGrouped (suc fuel) current h =
    elim (Bool-cases ((current - current % 128) / 128 == 0)) [
      | inl e ↦ record {
        head = current % 128;
        tail = [];
        found = rw e;
        small = (omega arith, tt);
        worth = ground arith;
        short = omega arith;
      }
      | inr e ↦
          let ih =
            distance_groups-IsGrouped fuel ((current - current % 128) / 128 - 1) (ground arith) in
          record {
            head = current % 128;
            tail = ih.head ∷ ih.tail;
            found = rw (e, ih.found);
            small = (omega arith, ih.small);
            worth = rw ih.worth (ground arith);
            short = omega (arith, ih.short);
          }
    ]

read_value-append :
    (d : ℕ) (hs : List ℕ) (g : ℕ) → read_value d (hs ++ g ∷ []) ≡ (read_value d hs + 1) * 128 + g
read_value-append d [] g = refl
read_value-append d (h ∷ hs) g = read_value-append ((d + 1) * 128 + h) hs g

big_value-append :
    (h : ℕ) (hs : List ℕ) (g : ℕ)
    → big_value ((h ∷ hs) ++ g ∷ []) ≡ (big_value (h ∷ hs) + 1) * 128 + g
big_value-append h hs g = read_value-append h hs g

-- A list of groups that is not empty, and its number.
record Big (l : List ℕ) (n : ℕ) : Type 0 where
  first : ℕ
  others : List ℕ
  shape : l ≡ first ∷ others
  small : All IsGroup (first ∷ others)
  worth : big_value (first ∷ others) ≡ n

All-append : (xs : List ℕ) (g : ℕ) → All IsGroup xs → g < 128 → All IsGroup (xs ++ g ∷ [])
All-append [] g a h = (h, tt)
All-append (x ∷ xs) g a h = (a.0, All-append xs g a.1 h)

Big-append : (l : List ℕ) (n g : ℕ) → Big l n → g < 128 → Big (l ++ g ∷ []) ((n + 1) * 128 + g)
Big-append l n g b h = record {
  first = b.first;
  others = b.others ++ g ∷ [];
  shape = ap (λ (x : List ℕ). x ++ g ∷ []) b.shape;
  small = (b.small.0, All-append b.others g b.small.1 h);
  worth = big_value-append b.first b.others g ∙ ap (λ (x : ℕ). (x + 1) * 128 + g) b.worth;
}

reverse-Big : (g : ℕ) (gs : List ℕ) → All IsGroup (g ∷ gs) → Big (reverse (g ∷ gs)) (value (g ∷ gs))
reverse-Big g [] a = record {
  first = g;
  others = [];
  shape = reverse-cons g [];
  small = a;
  worth = refl;
}
reverse-Big g (h ∷ gs) a =
    rw (reverse-cons g (h ∷ gs))
      (Big-append (reverse (h ∷ gs)) (value (h ∷ gs)) g (reverse-Big h gs a.1) a.0)

read_value-le : (d : ℕ) (hs : List ℕ) → d ≤ read_value d hs
read_value-le d [] = omega arith
read_value-le d (h ∷ hs) = omega (arith, read_value-le ((d + 1) * 128 + h) hs)

-- The loop reads marked groups up to the last one, and stops there.
read_distance_more-mark_groups :
    (d h : ℕ) (hs rest : List ℕ)
    → All IsGroup (h ∷ hs)
    → read_value d (h ∷ hs) < 2 ^ 53
    → read_distance_more d (mark_groups (h ∷ hs) ++ rest) ≡ some (read_value d (h ∷ hs), rest)
unfolding read_distance_more mark_groups
read_distance_more-mark_groups d h [] rest a s = ground arith
read_distance_more-mark_groups d h (i ∷ hs) rest a s = ground (
  arith,
  read_distance_more-mark_groups ((d + 1) * 128 + h) i hs rest,
  read_value-le ((d + 1) * 128 + h) (i ∷ hs),
)

read_distance-mark_groups :
    (h : ℕ) (hs rest : List ℕ)
    → All IsGroup (h ∷ hs)
    → big_value (h ∷ hs) < 2 ^ 53
    → read_distance (mark_groups (h ∷ hs) ++ rest) ≡ some (big_value (h ∷ hs), rest)
unfolding read_distance mark_groups
read_distance-mark_groups h [] rest a s = ground arith
read_distance-mark_groups h (i ∷ hs) rest a s =
    ground (arith, read_distance_more-mark_groups h i hs rest)

length-mark_groups : (gs : List ℕ) → length (mark_groups gs) ≡ length gs
unfolding mark_groups
length-mark_groups [] = refl
length-mark_groups (g ∷ []) = refl
length-mark_groups (g ∷ h ∷ gs) = ap suc (length-mark_groups (h ∷ gs))

length-reverse : (gs : List ℕ) → length (reverse gs) ≡ length gs
length-reverse [] = refl
length-reverse (g ∷ gs) = omega (
  arith,
  ap (λ (x : List ℕ). length x) (reverse-cons g gs),
  length-append (reverse gs) (g ∷ []),
  length-reverse gs,
)

count_groups-distance_groups :
    (fuel current count : ℕ) (gs : List ℕ)
    → distance_groups fuel current ≡ some gs
    → count_groups fuel current count ≡ some (count + length gs)
unfolding distance_groups count_groups
count_groups-distance_groups zero current count gs h = cc
count_groups-distance_groups (suc fuel) current count gs h =
    elim (Bool-cases ((current - current % 128) / 128 == 0)) [
      | inl e ↦ ground arith
      | inr e ↦ elim (Option-cases (distance_groups fuel ((current - current % 128) / 128 - 1))) [
        | inl f ↦ absurd (ground arith)
        | inr (more, f) ↦ ground (
          arith,
          count_groups-distance_groups fuel ((current - current % 128) / 128 - 1) (count + 1) more
              f,
        )
      ]
    ]

-- What a distance other than 0 is written as, and how many bytes that is.
written-IsGrouped :
    (rel : ℕ)
    → (rel == 0) ≡ false
    → rel < 2 ^ 32
    → (g : IsGrouped 5 rel)
    → (encode_ofs_delta_distance rel ≡ some (mark_groups (reverse (g.head ∷ g.tail))))
      × (ofs_delta_distance_length rel ≡ some (length (g.head ∷ g.tail)))
unfolding encode_ofs_delta_distance ofs_delta_distance_length
written-IsGrouped rel z h g =
    let same : rel % 2 ^ 32 ≡ rel = omega arith in
    (
      rw (z, same, g.found),
      rw (z, same)
          (count_groups-distance_groups 5 rel 0 (g.head ∷ g.tail) g.found ∙ ap some (omega arith)),
    )

read-Big :
    (rel : ℕ) (l rest : List ℕ)
    → rel < 2 ^ 32
    → Big l rel
    → read_distance (mark_groups l ++ rest) ≡ some (rel, rest)
read-Big rel l rest h b = rw b.shape (
    read_distance-mark_groups b.first b.others rest b.small (omega (arith, b.worth))
    ∙ ap (λ (n : ℕ). some (n, rest)) b.worth)

length-written : (gs : List ℕ) → length (mark_groups (reverse gs)) ≡ length gs
length-written gs = length-mark_groups (reverse gs) ∙ length-reverse gs

-- A number with its bytes, as the theorem below states it.
abbrev pub Encodes : ℕ → List ℕ → Type 0
Encodes rel rest =
    (bytes : List ℕ) × (encode_ofs_delta_distance rel ≡ some bytes)
    × (ofs_delta_distance_length rel ≡ some (length bytes))
    × (length bytes ≤ 5)
    × (read_distance (bytes ++ rest) ≡ some (rel, rest))

read_nonzero :
    (rel : ℕ) (rest : List ℕ)
    → (rel == 0) ≡ false
    → rel < 2 ^ 32
    → IsGrouped 5 rel
    → Encodes rel rest
read_nonzero rel rest z h g =
    let (enc, len) = written-IsGrouped rel z h g in
    let same = length-written (g.head ∷ g.tail) in
    let b = subst (Big (reverse (g.head ∷ g.tail))) g.worth (reverse-Big g.head g.tail g.small) in
    (
      mark_groups (reverse (g.head ∷ g.tail)),
      enc,
      len ∙ ap some (sym same),
      omega (arith, same, g.short),
      read-Big rel (reverse (g.head ∷ g.tail)) rest h b,
    )

-- A distance is written in one to five bytes, as many as `ofsDeltaDistanceLength` says, and reading
-- them gives the distance back and leaves what follows, for every distance below 2^32.
pub read_distance-encode : (rel : ℕ) (rest : List ℕ) → rel < 2 ^ 32 → Encodes rel rest
unfolding encode_ofs_delta_distance ofs_delta_distance_length
read_distance-encode rel rest h = elim (Bool-cases (rel == 0)) [
  | inl z ↦ (0 ∷ [], rw z, rw z, omega arith, unfold read_distance in ground arith)
  | inr z ↦ read_nonzero rel rest z h (distance_groups-IsGrouped 5 rel (omega arith))
]
