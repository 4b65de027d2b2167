-- ===== src/Server/Arguments/Packed.antt =====
-- What `_unpack_args_buf` makes of packed arguments, and of anything else.
use pttarticle_recommander.Common.{
  ℕ, ◌+◌, ◌≡◌, refl, sym, ap, ◌∙◌, List, [], ◌∷◌, ◌++◌, length, drop, append_assoc, append-nil,
  length-append, arith, inl, inr, drop_behind,
}
use pttarticle_recommander.Common.Results.{
  Error, Result, ok, err, protocol_error, ◌>>=◌, >>=-eq-ok, Result-cases,
}
use pttarticle_recommander.Protocol.Bytes.{Bytes}
use pttarticle_recommander.Protocol.Codec.{Packer, RoundTrips}
use pttarticle_recommander.Protocol.Net.StringStruct
use pttarticle_recommander.Protocol.Net.StringStruct.{StringStruct-RoundTrips}
use pttarticle_recommander.Protocol.Net.IdentityStruct
use pttarticle_recommander.Protocol.Net.IdentityStruct.{IdentityStruct-RoundTrips}
use pttarticle_recommander.Protocol.Net.TimeStruct
use pttarticle_recommander.Protocol.Net.TimeStruct.{TimeStruct-RoundTrips}
use pttarticle_recommander.Server.Arguments.{
  Arg, text, number, ArgStruct, string_struct, identity_struct, time_struct, unpack_arg, text_arg,
  number_arg, as_protocol_error, unpack_args, unpack_args_buf,
}

-- The packed form of an argument, where the struct is the one of its kind.
abbrev pub pack_arg : ArgStruct → Packer Arg
pack_arg string_struct (text s) = StringStruct.pack s
pack_arg identity_struct (number n) = IdentityStruct.pack n
pack_arg time_struct (number n) = TimeStruct.pack n
pack_arg _ _ = err protocol_error

abbrev pub pack_args : List ArgStruct → List Arg → Result Bytes
pack_args [] [] = ok []
pack_args (struct ∷ structs) (arg ∷ args) = do
  b ← pack_arg struct arg
  bs ← pack_args structs args
  ok (b ++ bs)
pack_args _ _ = err protocol_error

arg-RoundTrips : (struct : ArgStruct) → RoundTrips (pack_arg struct) (unpack_arg struct)
unfolding unpack_arg text_arg number_arg
arg-RoundTrips string_struct = record { at = go }
  where
    go :
        (x : Arg) (b buf rest : Bytes) (offs : ℕ)
        → pack_arg string_struct x ≡ ok b
        → drop offs buf ≡ b ++ rest
        → unpack_arg string_struct buf offs ≡ ok (x, offs + length b)
    go (text s) b buf rest offs p h = rw (StringStruct-RoundTrips.at s b buf rest offs p h)
    go (number n) b buf rest offs p h = cc
arg-RoundTrips identity_struct = record { at = go }
  where
    go :
        (x : Arg) (b buf rest : Bytes) (offs : ℕ)
        → pack_arg identity_struct x ≡ ok b
        → drop offs buf ≡ b ++ rest
        → unpack_arg identity_struct buf offs ≡ ok (x, offs + length b)
    go (text s) b buf rest offs p h = cc
    go (number n) b buf rest offs p h = rw (IdentityStruct-RoundTrips.at n b buf rest offs p h)
arg-RoundTrips time_struct = record { at = go }
  where
    go :
        (x : Arg) (b buf rest : Bytes) (offs : ℕ)
        → pack_arg time_struct x ≡ ok b
        → drop offs buf ≡ b ++ rest
        → unpack_arg time_struct buf offs ≡ ok (x, offs + length b)
    go (text s) b buf rest offs p h = cc
    go (number n) b buf rest offs p h = rw (TimeStruct-RoundTrips.at n b buf rest offs p h)

unpack_args-pack_args :
    (structs : List ArgStruct) (args : List Arg) (b buf rest : Bytes) (offs : ℕ)
    → pack_args structs args ≡ ok b
    → drop offs buf ≡ b ++ rest
    → unpack_args structs buf offs ≡ ok (args, offs + length b)
unfolding unpack_args
unpack_args-pack_args [] [] b buf rest offs p h =
    let e : [] ≡ b = cc in rw (← e) (ap (λ k. ok ([], k)) (omega arith))
unpack_args-pack_args [] (arg ∷ args) b buf rest offs p h = cc
unpack_args-pack_args (struct ∷ structs) [] b buf rest offs p h = cc
unpack_args-pack_args (struct ∷ structs) (arg ∷ args) b buf rest offs p h =
    let (c, e, p') = >>=-eq-ok (pack_arg struct arg) _ p in
    let (d, q, r) = >>=-eq-ok (pack_args structs args) _ p' in
    let joined : c ++ d ≡ b = cc in
    let whole : drop offs buf ≡ c ++ (d ++ rest) =
      h ∙ ap (λ z. z ++ rest) (sym joined) ∙ append_assoc c d rest in
    let behind =
      unpack_args-pack_args structs args d buf rest (offs + length c) q
        (drop_behind buf c (d ++ rest) offs whole) in
    let total : offs + length c + length d ≡ offs + length b =
      omega (arith, ap length joined, length-append c d) in
    rw ((arg-RoundTrips struct).at arg c buf (d ++ rest) offs e whole, behind)
      (ap (λ k. ok (arg ∷ args, k)) total)

-- Arguments packed one behind the other are unpacked to themselves.
pub unpack_args_buf-pack_args :
    (structs : List ArgStruct) (args : List Arg) (b : Bytes)
    → pack_args structs args ≡ ok b
    → unpack_args_buf b structs ≡ ok args
unfolding unpack_args_buf
unpack_args_buf-pack_args structs args b p =
    rw (unpack_args-pack_args structs args b b [] 0 p (sym (append-nil b))) (ground arith)

-- Bytes behind the last argument are refused with a `_ProtocolError`.
pub unpack_args_buf_trailing :
    (structs : List ArgStruct) (args : List Arg) (b : Bytes) (x : ℕ) (rest : Bytes)
    → pack_args structs args ≡ ok b
    → unpack_args_buf (b ++ x ∷ rest) structs ≡ err protocol_error
unfolding unpack_args_buf
unpack_args_buf_trailing structs args b x rest p =
    rw (unpack_args-pack_args structs args b (b ++ x ∷ rest) (x ∷ rest) 0 p refl)
      (ground (arith, length-append b (x ∷ rest)))

unpack_args-errors :
    (structs : List ArgStruct) (buf : Bytes) (offs : ℕ) (e : Error)
    → unpack_args structs buf offs ≡ err e
    → e ≡ protocol_error
unfolding unpack_args as_protocol_error
unpack_args-errors [] buf offs e h = cc
unpack_args-errors (struct ∷ structs) buf offs e h =
    elim (Result-cases (unpack_arg struct buf offs)) [
      | inl ((arg, offs'), p) ↦ ground (arith, p, unpack_args-errors structs buf offs' e)
      | inr (x, p) ↦ ground (arith, p)
    ]

-- Whatever is wrong with the arguments, the exception is a `_ProtocolError`.
pub unpack_args_buf-errors :
    (structs : List ArgStruct) (buf : Bytes) (e : Error)
    → unpack_args_buf buf structs ≡ err e
    → e ≡ protocol_error
unfolding unpack_args_buf
unpack_args_buf-errors structs buf e h = ground (arith, unpack_args-errors structs buf 0 e)
