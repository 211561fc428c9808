-- ===== src/Fsearch/Reader.antt =====
-- The buffer that the machine reads a file through: `getchar_file` of librxvm/rxvm.c, with the
-- variables fbuf, bufpos and fpos.
use librxvm.Prelude.{
  ℕ, ◌+◌, List, ◌++◌, Outcome, done, ◌>>=◌, ltb, ◌==◌, if◌then◌else◌, length, set, drop,
}
use librxvm.File.{Stdio, eof}
use librxvm.Bmh.{read_at}

abbrev pub fbuf_size : ℕ
fbuf_size = 256

-- The file with the buffer that `getchar_file` reads it through.
pub record Reader (F : Type 0) : Type 0 where
  pub fp : F
  pub fbuf : List ℕ
  pub bufpos : ℕ
  pub fpos : ℕ

module _ {F : Type 0} (io : Stdio F) where
  unfoldable pub refill : Reader F → Reader F
  refill s =
      let r : List ℕ × F = io.fread fbuf_size s.fp in
      let read : List ℕ = r.0 ++ drop (length r.0) s.fbuf in
      record {
        fp = r.1;
        fbuf = if ltb (length r.0) fbuf_size then set read (length r.0) eof else read;
        bufpos = 0;
        fpos = s.fpos + length r.0;
      }

  unfoldable pub getchar_file : Reader F → Outcome (ℕ × Reader F)
  getchar_file s =
      let s' : Reader F = if s.bufpos == fbuf_size then refill s else s in
      read_at s'.fbuf s'.bufpos >>= (λ c. done (c, record s' { bufpos = s'.bufpos + 1 }))
