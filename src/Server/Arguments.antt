-- ===== src/Server/Arguments.antt =====
-- `_Delegator._unpack_args_buf` of src/miner/modules/server.py.
pub mod Packed
use pttarticle_recommander.Common.{ℕ, List, [], ◌∷◌, length, Text, ◌==◌, if◌then◌else◌}
use pttarticle_recommander.Common.Int.{ℤ}
use pttarticle_recommander.Common.Results.{Result, ok, err, protocol_error, type_error}
use pttarticle_recommander.Common.Results
use pttarticle_recommander.Common.Exec.{Exec, raise}
use pttarticle_recommander.Protocol.Bytes.{Bytes}
use pttarticle_recommander.Protocol.Codec.{Unpacker}
use pttarticle_recommander.Protocol.Net.StringStruct
use pttarticle_recommander.Protocol.Net.ArrayStruct
use pttarticle_recommander.Protocol.Net.IdentityStruct
use pttarticle_recommander.Protocol.Net.TimeStruct
use pttarticle_recommander.Protocol.Types.DocMetaData
use pttarticle_recommander.Protocol.Types.DocMetaData.{DocMetaData}
use pttarticle_recommander.Server.Backend.{
  Sequence, list_value, iterator_value, none_value, Backend,
}

-- An unpacked argument.
pub data Arg : Type 0 where
  text : Text → Arg
  number : ℤ → Arg

-- The struct that an argument is unpacked by.
pub data ArgStruct : Type 0 where
  string_struct identity_struct time_struct : ArgStruct

unfoldable pub text_arg : Result (Text × ℕ) → Result (Arg × ℕ)
text_arg (ok (s, offs)) = ok (text s, offs)
text_arg (err e) = err e

unfoldable pub number_arg : Result (ℤ × ℕ) → Result (Arg × ℕ)
number_arg (ok (n, offs)) = ok (number n, offs)
number_arg (err e) = err e

unfoldable pub unpack_arg : ArgStruct → Unpacker Arg
unfolding text_arg number_arg
unpack_arg string_struct buf offs = text_arg (StringStruct.unpack buf offs)
unpack_arg identity_struct buf offs = number_arg (IdentityStruct.unpack buf offs)
unpack_arg time_struct buf offs = number_arg (TimeStruct.unpack buf offs)

-- `except: raise _ProtocolError(...)`, whatever the exception.
unfoldable pub as_protocol_error {ℓ} : {A : Type ℓ} → Result A → Result A
as_protocol_error (ok a) = ok a
as_protocol_error (err e) = err protocol_error

unfoldable pub unpack_args : List ArgStruct → Unpacker (List Arg)
unfolding as_protocol_error unpack_arg
unpack_args [] buf offs = ok ([], offs)
unpack_args (struct ∷ structs) buf offs =
    Results.◌>>=◌ (as_protocol_error (unpack_arg struct buf offs)) λ (arg, offs').
      Results.◌>>=◌ (unpack_args structs buf offs') λ (args, end). ok (arg ∷ args, end)

unfoldable pub unpack_args_buf : Bytes → List ArgStruct → Result (List Arg)
unfolding unpack_args
unpack_args_buf args_buf structs =
    Results.◌>>=◌ (unpack_args structs args_buf 0)
      λ (args, offs). if offs == length args_buf then ok args else err protocol_error
