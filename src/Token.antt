-- ===== src/Token.antt =====
-- The tokens of librxvm/lex.h.
pub data Token : Type 0 where
  charc_open charc_close char_range lparen rparen one zero onezero alt any literal rep sol eol :
      Token
  invalidsym end : Token
