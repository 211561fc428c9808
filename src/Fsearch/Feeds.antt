-- ===== src/Fsearch/Feeds.antt =====
-- `getchar_file` of librxvm/rxvm.c gives the bytes of the file in order, and EOF behind them.
use librxvm.Prelude.{
  ℕ, zero, suc, ◌+◌, ◌-◌, ◌≤◌, ◌<◌, ◌≡◌, refl, sym, ap, ap₂, ◌∙◌, ◌⊎◌, inl, inr, true, false,
  Bool-cases, List, [], ◌∷◌, ◌++◌, append-nil, some, cons_inj, Outcome, done, ◌>>=◌, arith, ltb,
  ◌==◌, ==_iff, length, length-append, length-set, get_elem?, set, take, drop,
}
use librxvm.Prelude.Slices.{length-take_le, length-drop, drop-drop}
use librxvm.File.{Stdio, IsRegular, eof}
use librxvm.Bmh.{read_at}
use librxvm.Fsearch.Reader.{Reader, fbuf_size, refill, getchar_file}

module _ {ℓ} {A : Type ℓ} where
  take++drop : (n : ℕ) (xs : List A) → take n xs ++ drop n xs ≡ xs
  take++drop zero xs = refl
  take++drop (suc n) [] = refl
  take++drop (suc n) (x ∷ xs) = ap (λ z. x ∷ z) (take++drop n xs)

  drop_all : (n : ℕ) (xs : List A) → length xs ≤ n → drop n xs ≡ []
  drop_all zero [] h = refl
  drop_all zero (x ∷ xs) h = absurd (omega arith)
  drop_all (suc n) [] h = refl
  drop_all (suc n) (x ∷ xs) h = drop_all n xs (omega arith)

  take_all : (n : ℕ) (xs : List A) → length (take n xs) < n → take n xs ≡ xs
  take_all zero xs h = absurd (omega arith)
  take_all (suc n) [] h = refl
  take_all (suc n) (x ∷ xs) h = ap (λ z. x ∷ z) (take_all n xs (omega arith))

  drop-head :
      (i : ℕ) (xs : List A) (c : A) (ys : List A)
      → drop i xs ≡ c ∷ ys
      → (get_elem? xs i ≡ some c) × (drop (i + 1) xs ≡ ys)
  drop-head zero [] c ys e = absurd (cc)
  drop-head zero (x ∷ xs) c ys e = let (p, q) = cons_inj e in (ap (λ z. some z) p, q)
  drop-head (suc i) [] c ys e = absurd (cc)
  drop-head (suc i) (x ∷ xs) c ys e =
      let (p, q) = drop-head i xs c ys e in
      let next : suc i + 1 ≡ suc (i + 1) = omega arith in (p, ap (λ z. drop z (x ∷ xs)) next ∙ q)

  some_head : (xs : List A) → 0 < length xs → (d : A) × (ys : List A) × (xs ≡ d ∷ ys)
  some_head [] h = absurd (omega arith)
  some_head (x ∷ xs) h = (x, xs, refl)

  -- A write behind the first list, over the head of the rest.
  set-behind :
      (xs ys : List A) (n : ℕ) (v : A)
      → length xs ≡ n
      → 0 < length ys
      → set (xs ++ ys) n v ≡ xs ++ v ∷ drop 1 ys
  set-behind [] [] n v e lt = absurd (omega arith)
  set-behind [] (y ∷ ys) zero v e lt = refl
  set-behind [] (y ∷ ys) (suc n) v e lt = absurd (omega arith)
  set-behind (x ∷ xs) ys zero v e lt = absurd (omega arith)
  set-behind (x ∷ xs) ys (suc n) v e lt = ap (λ z. x ∷ z) (set-behind xs ys n v (omega arith) lt)

module _ {F : Type 0} {io : Stdio F} (reg : IsRegular io) where
  -- The part of the file that is behind its offset.
  abbrev pub unread : F → List ℕ
  unread f = drop (reg.offset f) (reg.content f)

  -- What is still to come: the buffer has it up to EOF, or up to its end and the file the rest.
  abbrev Comes : Reader F → List ℕ → Type 0
  Comes s rest =
      (drop s.bufpos s.fbuf ++ unread s.fp ≡ rest)
      ⊎ ((tail : List ℕ) × (drop s.bufpos s.fbuf ≡ rest ++ eof ∷ tail))

  pub record Feeds (s : Reader F) (rest : List ℕ) : Type 0 where
    pub size : length s.fbuf ≡ fbuf_size
    pub inside : s.bufpos ≤ fbuf_size
    pub comes : Comes s rest

  Comes-unread :
      (s : Reader F) (rest : List ℕ) → Feeds s rest → s.bufpos ≡ fbuf_size → unread s.fp ≡ rest
  Comes-unread s rest h full =
      let used : drop s.bufpos s.fbuf ≡ [] =
        drop_all s.bufpos s.fbuf (omega (arith, h.size, full)) in
      elim h.comes [
        | inl e ↦ ap (λ z. z ++ unread s.fp) (sym used) ∙ e
        | inr (tail, e) ↦
            let same : 0 ≡ length (rest ++ eof ∷ tail) = ap length (sym used ∙ e) in
            absurd (omega (arith, same, length-append rest (eof ∷ tail)))
      ]

  -- The buffer is used up: the next bytes of the file are read.
  module _ (s : Reader F) (rest : List ℕ) (h : Feeds s rest) (full : s.bufpos ≡ fbuf_size) where
    data_read : (io.fread fbuf_size s.fp).0 ≡ take fbuf_size rest
    data_read =
        reg.fread_data fbuf_size s.fp ∙ ap (λ z. take fbuf_size z) (Comes-unread s rest h full)

    old_size :
        length (drop (length (io.fread fbuf_size s.fp).0) s.fbuf)
        ≡ fbuf_size - length (io.fread fbuf_size s.fp).0
    old_size =
        length-drop (length (io.fread fbuf_size s.fp).0) s.fbuf
        ∙ ap (λ z. z - length (io.fread fbuf_size s.fp).0) h.size

    refill-short :
        ltb (length (io.fread fbuf_size s.fp).0) fbuf_size ≡ true → Feeds (refill io s) rest
    unfolding refill
    refill-short e =
        let got : List ℕ = (io.fread fbuf_size s.fp).0 in
        let old : List ℕ = drop (length got) s.fbuf in
        let lt : length got < fbuf_size = ground arith in
        let all : got ≡ rest =
          data_read ∙ take_all fbuf_size rest (omega (arith, lt, ap length data_read)) in
        rw (refill, e)
          (record {
            size =
                length-set (got ++ old) (length got) eof
                ∙ length-append got old
                ∙ omega (arith, old_size);
            inside = omega arith;
            comes = inr (
              drop 1 old,
              set-behind got old (length got) eof refl (omega (arith, old_size))
                  ∙ ap (λ z. z ++ eof ∷ drop 1 old) all,
            );
          })

    refill-full :
        ltb (length (io.fread fbuf_size s.fp).0) fbuf_size ≡ false → Feeds (refill io s) rest
    unfolding refill
    refill-full e =
        let got : List ℕ = (io.fread fbuf_size s.fp).0 in
        let old : List ℕ = drop (length got) s.fbuf in
        let most : length got ≤ fbuf_size =
          omega (arith, ap length data_read, length-take_le fbuf_size rest) in
        let is : length got ≡ fbuf_size = ground arith in
        let none_old : old ≡ [] = drop_all (length got) s.fbuf (omega (arith, is, h.size)) in
        let next : unread (io.fread fbuf_size s.fp).1 ≡ drop fbuf_size rest =
          ap₂ (λ o z. drop o z) (reg.fread_offset fbuf_size s.fp) (reg.fread_content fbuf_size s.fp)
          ∙ sym (drop-drop (reg.offset s.fp) (length got) (reg.content s.fp))
          ∙ ap₂ (λ n z. drop n z) is (Comes-unread s rest h full) in
        rw (refill, e)
          (record {
            size = length-append got old ∙ omega (arith, old_size, is);
            inside = omega arith;
            comes = inl (
                ap₂ (λ x y. x ++ y) (ap (λ z. got ++ z) none_old ∙ append-nil got ∙ data_read) next
                ∙ take++drop fbuf_size rest);
          })

    refill-Feeds : Feeds (refill io s) rest × ((refill io s).bufpos ≡ 0)
    unfolding refill
    refill-Feeds = (
      elim (Bool-cases (ltb (length (io.fread fbuf_size s.fp).0) fbuf_size)) [
        | inl e ↦ refill-short e
        | inr e ↦ refill-full e
      ],
      refl,
    )

  -- The first fetch of a search: the buffer counts as used up, whatever is in it.
  pub start-Feeds :
      (s : Reader F) → length s.fbuf ≡ fbuf_size → s.bufpos ≡ fbuf_size → Feeds s (unread s.fp)
  start-Feeds s e full = record {
    size = e;
    inside = omega (arith, full);
    comes = inl (ap (λ z. z ++ unread s.fp) (drop_all s.bufpos s.fbuf (omega (arith, e, full))));
  }

  -- How a fetch ends.
  abbrev pub Fetches : Outcome (ℕ × Reader F) → List ℕ → Type 0
  Fetches m [] = (s' : Reader F) × (m ≡ done (eof, s'))
  Fetches m (c ∷ rest) = (s' : Reader F) × (m ≡ done (c, s')) × Feeds s' rest

  -- A fetch from a buffer that is not used up.
  abbrev fetched : Reader F → Outcome (ℕ × Reader F)
  fetched s = read_at s.fbuf s.bufpos >>= (λ c. done (c, record s { bufpos = s.bufpos + 1 }))

  module _ (s : Reader F) (size : length s.fbuf ≡ fbuf_size) (inside : s.bufpos < fbuf_size) where
    fetched-head :
        (c : ℕ) (ys : List ℕ)
        → drop s.bufpos s.fbuf ≡ c ∷ ys
        → fetched s ≡ done (c, record s { bufpos = s.bufpos + 1 })
    fetched-head c ys e =
        let (p, _) = drop-head s.bufpos s.fbuf c ys e in rw (◌>>=◌, read_at, p) refl

    fetched-tail :
        (c : ℕ) (ys rest : List ℕ)
        → drop s.bufpos s.fbuf ≡ c ∷ ys
        → Comes (record s { bufpos = s.bufpos + 1 }) rest
        → Fetches (fetched s) (c ∷ rest)
    fetched-tail c ys rest e comes = (
      record s { bufpos = s.bufpos + 1 },
      fetched-head c ys e,
      record { size = size; inside = omega arith; comes = comes },
    )

    fetched-Fetches : (rest : List ℕ) → Comes s rest → Fetches (fetched s) rest
    fetched-Fetches [] (inr (tail, e)) =
        (record s { bufpos = s.bufpos + 1 }, fetched-head eof tail e)
    fetched-Fetches (c ∷ rest) (inr (tail, e)) =
        fetched-tail c (rest ++ eof ∷ tail) rest e
          (inr (tail, (drop-head s.bufpos s.fbuf c (rest ++ eof ∷ tail) e).1))
    fetched-Fetches rest (inl e) =
        let (d, ys, q) =
          some_head (drop s.bufpos s.fbuf) (omega (arith, length-drop s.bufpos s.fbuf, size)) in
        let all : d ∷ (ys ++ unread s.fp) ≡ rest = ap (λ z. z ++ unread s.fp) (sym q) ∙ e in
        rw (← all) (
          fetched-tail d ys (ys ++ unread s.fp) q
            (inl (ap (λ z. z ++ unread s.fp) (drop-head s.bufpos s.fbuf d ys q).1)))

  pub getchar_file-Fetches :
      (s : Reader F) (rest : List ℕ) → Feeds s rest → Fetches (getchar_file io s) rest
  unfolding getchar_file
  getchar_file-Fetches s rest h = elim (Bool-cases (s.bufpos == fbuf_size)) [
    | inl e ↦
        let full : s.bufpos ≡ fbuf_size = (==_iff s.bufpos fbuf_size).0 e in
        let (feeds, first) = refill-Feeds s rest h full in
        rw (getchar_file, e)
          (fetched-Fetches (refill io s) feeds.size (omega (arith, first)) rest feeds.comes)
    | inr e ↦
        rw (getchar_file, e) (fetched-Fetches s h.size (ground (arith, h.inside)) rest h.comes)
  ]
