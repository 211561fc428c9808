-- ===== src/Bmh/Skip.antt =====
-- `skip` of librxvm/bmh.c: where it leaves the end of the window, and what it returns.
use librxvm.Prelude.{
  ℕ, ◌+◌, ◌-◌, ◌^◌, ◌≤◌, ◌<◌, ◌≡◌, refl, sym, ap, ap₂, ◌∙◌, ◌⊎◌, inl, inr, true, false, Bool-cases,
  List, some, done, ◌>>=◌, arith, ltb, length, get_elem?, get_elem?-some, take, drop, replicate,
}
use librxvm.Prelude.Words.{sub32, add32-fits, sub32-fits, sub32-zero}
use librxvm.Prelude.Slices.{
  length-take, length-take_le, length-take_all, length-take_short, length-drop, drop-drop,
  take-drop-prefix, get_elem?-drop, get_elem?-take, get_elem?-prefix, get_elem?-padding,
}
use librxvm.File.{Stdio, IsRegular, eof}
use librxvm.Bmh.{Bmh, fill, skip, read_at}
use librxvm.Bmh.Buffer.{window, Holds, Leaves, fill-Holds}

-- A read inside an array.
pub read_at-some : (xs : List ℕ) (i : ℕ) {c : ℕ} → get_elem? xs i ≡ some c → read_at xs i ≡ done c
read_at-some xs i e = rw (read_at, e) refl

module _ {F : Type 0} {io : Stdio F} (reg : IsRegular io) (bufsize : ℕ) (content : List ℕ) where
  -- What the buffer has at an index: the file's byte, or EOF behind the end of the file.
  abbrev pub Reads : ℕ → Bmh F → ℕ → ℕ → Type 0
  Reads base b i c =
      ((i < b.end) × (get_elem? content (base + i) ≡ some c))
      ⊎ ((c ≡ eof) × (length content ≤ base + i))

  pub buffer-Reads :
      (base : ℕ) (b : Bmh F)
      → Holds reg bufsize content base b
      → (i : ℕ) → i < bufsize
      → (c : ℕ) × (get_elem? b.bmhbuf i ≡ some c) × Reads base b i c
  buffer-Reads base b h i lt =
      let w : List ℕ = window reg bufsize content base in
      let most = length-take_le bufsize (drop base content) in
      let rest = length-drop base content in
      elim (Bool-cases (ltb i b.end)) [
        | inl e ↦
            let inside : i < length w = ground (arith, h.size) in
            let (c, q) = get_elem?-some w i inside in
            (
              c,
              ap (λ z. get_elem? z i) h.buf
                  ∙ get_elem?-prefix w (replicate (bufsize - b.end) eof) i inside
                  ∙ q,
              inl (
                ground arith,
                sym (get_elem?-drop base i content)
                    ∙ sym (get_elem?-take bufsize i (drop base content) inside)
                    ∙ q,
              ),
            )
        | inr e ↦
            let behind : length w ≤ i = ground (arith, h.size) in
            (
              eof,
              ap (λ z. get_elem? z i) h.buf
                  ∙ get_elem?-padding w (bufsize - b.end) i eof behind (omega (arith, h.size)),
              inr (
                refl,
                omega (arith, length-take_short bufsize (drop base content) (omega arith)),
              ),
            )
      ]

  -- What `skip` leaves: the end of the window at `q`, which the buffer holds with what is before it.
  pub record Skipped (n base num q : ℕ) (b : Bmh F) : Type 0 where
    pub state : Bmh F
    pub start : ℕ
    pub c : ℕ
    pub returns : skip io bufsize num b ≡ done (c, state)
    pub holds : Holds reg bufsize content start state
    pub leaves : Leaves reg bufsize b state
    pub here : start + state.pos ≡ q
    pub room : n ≤ state.pos + 1
    pub reads : Reads start state state.pos c

  module _ (fits : bufsize + bufsize < 2 ^ 32) (b : Bmh F) (num : ℕ) where
    skip-inside :
        {c : ℕ}
        → b.pos + num < 2 ^ 32
        → ltb b.endix (b.pos + num) ≡ false
        → get_elem? b.bmhbuf (b.pos + num) ≡ some c
        → skip io bufsize num b ≡ done (c, record b { pos = b.pos + num })
    unfolding skip
    skip-inside small e r = rw (add32-fits b.pos num small, e, ◌>>=◌, read_at, r) refl

    skip-fills :
        (f : Bmh F) {c : ℕ} (backup : ℕ)
        → b.pos + num < 2 ^ 32
        → ltb b.endix (b.pos + num) ≡ true
        → sub32 b.plen (sub32 (b.pos + num) b.endix) ≡ backup
        → fill io bufsize backup b ≡ done f
        → get_elem? f.bmhbuf f.pendix ≡ some c
        → skip io bufsize num b ≡ done (c, record f { pos = f.pendix })
    unfolding skip
    skip-fills f backup small e k g r =
        rw (add32-fits b.pos num small, e, k, g, ◌>>=◌, read_at, r) refl

    module _ (n base : ℕ) (h : Holds reg bufsize content base b) (plen : b.plen ≡ n)
        (pendix : b.pendix ≡ n - 1) (some_pat : 0 < n) (short : n ≤ bufsize) (near : num ≤ n)
        (room : n ≤ b.pos + num + 1) (close : b.pos + num < b.end + n) where
      small_end : b.end ≤ bufsize
      small_end = omega (arith, h.size, length-take_le bufsize (drop base content))

      -- The end of the new window is in the buffer.
      stays :
          ltb b.endix (b.pos + num) ≡ false
          → b.pos + num < bufsize
          → Skipped n base num (base + b.pos + num) b
      stays e lt =
          let (c, r, reads) = buffer-Reads base b h (b.pos + num) lt in
          record {
            state = record b { pos = b.pos + num };
            start = base;
            c = c;
            returns = skip-inside {c = c} (omega (arith, small_end)) e r;
            holds = record {
              same = h.same;
              at_end = h.at_end;
              size = h.size;
              last = h.last;
              buf = h.buf;
            };
            leaves = record {
              badchar_eq = refl;
              pattern_eq = refl;
              plen_eq = refl;
              pendix_eq = refl;
            };
            here = omega arith;
            room = room;
            reads = reads;
          }

      -- It is behind the buffer, which is moved so that the new window ends at `pendix`.
      moves : 0 < b.end → b.end ≤ b.pos + num → Skipped n base num (base + b.pos + num) b
      moves nonempty le =
          let last : b.endix ≡ b.end - 1 =
            h.last ∙ sub32-fits b.end 1 (omega arith) (omega (arith, small_end)) in
          let backup : ℕ = n - (b.pos + num - (b.end - 1)) in
          let base' : ℕ = base + (b.end - backup) in
          let w : List ℕ = window reg bufsize content base in
          let over : sub32 (b.pos + num) b.endix ≡ b.pos + num - (b.end - 1) =
            ap (λ z. sub32 (b.pos + num) z) last
            ∙ sub32-fits (b.pos + num) (b.end - 1) (omega arith) (omega (arith, small_end)) in
          let keep : sub32 b.plen (sub32 (b.pos + num) b.endix) ≡ backup =
            ap₂ sub32 plen over
            ∙ sub32-fits n (b.pos + num - (b.end - 1)) (omega arith) (omega arith) in
          let (f, fills, holds, leaves, _) =
            fill-Holds reg bufsize fits content base' backup b (omega arith) small_end h.same
              (omega (arith, h.at_end))
              (ap (λ z. take backup (drop (b.end - backup) z)) h.buf
                ∙ take-drop-prefix (b.end - backup) backup bufsize (drop base content)
                    (replicate (bufsize - b.end) eof) (omega (arith, h.size))
                ∙ ap (λ z. take backup z) (drop-drop base (b.end - backup) content))
              (length-take backup (drop base' content) (
                omega (
                  arith,
                  h.size,
                  length-take_all bufsize (drop base content),
                  length-drop base content,
                  length-drop base' content,
                ))) in
          let (c, r, reads) =
            buffer-Reads base' f holds f.pendix (omega (arith, leaves.pendix_eq)) in
          record {
            state = record f { pos = f.pendix };
            start = base';
            c = c;
            returns =
                skip-fills f {c = c} backup (omega (arith, small_end)) (ground (arith, last)) keep
                  fills r;
            holds = record {
              same = holds.same;
              at_end = holds.at_end;
              size = holds.size;
              last = holds.last;
              buf = holds.buf;
            };
            leaves = record {
              badchar_eq = leaves.badchar_eq;
              pattern_eq = leaves.pattern_eq;
              plen_eq = leaves.plen_eq;
              pendix_eq = leaves.pendix_eq;
            };
            here = omega (arith, leaves.pendix_eq);
            room = omega (arith, leaves.pendix_eq);
            reads = reads;
          }

      pub skip-Skipped : Skipped n base num (base + b.pos + num) b
      skip-Skipped = elim (Bool-cases (ltb (b.pos + num) b.end)) [
        | inl e ↦
            let lt : b.pos + num < b.end = ground arith in
            let last : b.endix ≡ b.end - 1 =
              h.last ∙ sub32-fits b.end 1 (omega arith) (omega (arith, small_end)) in
            stays (ground (arith, last)) (omega (arith, small_end))
        | inr e ↦ elim (Bool-cases (ltb 0 b.end)) [
          | inl nonempty ↦ moves (ground arith) (ground arith)
          | inr empty ↦
              let none_read : b.end ≡ 0 = ground arith in
              let last : b.endix ≡ 2 ^ 32 - 1 =
                h.last ∙ ap (λ z. sub32 z 1) none_read ∙ sub32-zero in
              stays (ground (arith, last)) (omega arith)
        ]
      ]
