-- ===== src/RpcError.antt =====
-- The errors of src/round/error.c, the JSON-RPC error codes of src/round/error_rpc.c with the
-- constants of include/round/const.h, and the error object of src/round/util/json_rpc.c.
-- Errors and maps that these functions get are not NULL.
use native.Mathlib.Nat.{mod-eq_of_lt}
use round.Common.{
  ℕ, ◌-◌, ◌%◌, ◌^◌, ◌<◌, List, ◌||◌, if◌then◌else◌, ltb, ◌≡◌, ◌⊎◌, inl, inr, refl, sym, ap, ◌∙◌,
  Option, none, some, arith,
}
use round.Common.Int.{ℤ, pos, negsuc, eqb_ℤ}

abbrev pub parser_error : ℤ
parser_error = negsuc 32699

abbrev pub invalid_request : ℤ
invalid_request = negsuc 32599

abbrev pub method_not_found : ℤ
method_not_found = negsuc 32600

abbrev pub invalid_params : ℤ
invalid_params = negsuc 32601

abbrev pub internal_error : ℤ
internal_error = negsuc 32602

abbrev pub bad_destination : ℤ
bad_destination = negsuc 31999

abbrev pub moved_permanently : ℤ
moved_permanently = negsuc 32000

abbrev pub condition_failed : ℤ
condition_failed = negsuc 32009

abbrev pub script_engine_internal_error : ℤ
script_engine_internal_error = negsuc 32019

abbrev pub script_engine_not_found : ℤ
script_engine_not_found = negsuc 32020

abbrev pub script_compile_error : ℤ
script_compile_error = negsuc 32021

abbrev pub script_runtime_error : ℤ
script_runtime_error = negsuc 32022

-- `round_json_rpc_errorcode2httpstatuscode`
unfoldable pub errorcode2httpstatuscode : ℤ → ℕ
errorcode2httpstatuscode code =
    if eqb_ℤ code parser_error || eqb_ℤ code invalid_params || eqb_ℤ code internal_error
    then 500
    else if eqb_ℤ code invalid_request
    then 400
    else if eqb_ℤ code method_not_found
    then 404
    else if eqb_ℤ code bad_destination
    then 400
    else if eqb_ℤ code moved_permanently
    then 301
    else if eqb_ℤ code condition_failed
    then 406
    else if eqb_ℤ code script_engine_internal_error
        || eqb_ℤ code script_compile_error
        || eqb_ℤ code script_runtime_error
    then 500
    else if eqb_ℤ code script_engine_not_found
    then 400
    else 500

-- The messages of `const.h`, each by its name, and any other text.
pub data ErrorMessage : Type 0 where
  unknown_msg : ErrorMessage
  parser_error_msg : ErrorMessage
  invalid_request_msg : ErrorMessage
  method_not_found_msg : ErrorMessage
  invalid_params_msg : ErrorMessage
  internal_error_msg : ErrorMessage
  bad_destination_msg : ErrorMessage
  moved_permanently_msg : ErrorMessage
  condition_failed_msg : ErrorMessage
  script_engine_internal_error_msg : ErrorMessage
  script_engine_not_found_msg : ErrorMessage
  script_compile_error_msg : ErrorMessage
  script_runtime_error_msg : ErrorMessage
  text : List ℕ → ErrorMessage

-- `round_json_rpc_errorcode2string`
unfoldable pub errorcode2string : ℤ → ErrorMessage
errorcode2string code =
    if eqb_ℤ code parser_error
    then parser_error_msg
    else if eqb_ℤ code invalid_request
    then invalid_request_msg
    else if eqb_ℤ code method_not_found
    then method_not_found_msg
    else if eqb_ℤ code invalid_params
    then invalid_params_msg
    else if eqb_ℤ code internal_error
    then internal_error_msg
    else if eqb_ℤ code bad_destination
    then bad_destination_msg
    else if eqb_ℤ code moved_permanently
    then moved_permanently_msg
    else if eqb_ℤ code condition_failed
    then condition_failed_msg
    else if eqb_ℤ code script_engine_internal_error
    then script_engine_internal_error_msg
    else if eqb_ℤ code script_engine_not_found
    then script_engine_not_found_msg
    else if eqb_ℤ code script_compile_error
    then script_compile_error_msg
    else if eqb_ℤ code script_runtime_error
    then script_runtime_error_msg
    else unknown_msg

-- `RoundError`; `none` is an empty message.
pub record RoundError : Type 0 where
  pub code : ℤ
  pub msg : Option ErrorMessage
  pub detail_code : ℤ
  pub detail_msg : Option ErrorMessage

-- `round_error_init`
unfoldable pub new_error : RoundError
new_error = record { code = pos 0; msg = none; detail_code = pos 0; detail_msg = none }

-- `round_error_clear`
unfoldable pub error_clear : RoundError → RoundError
error_clear err = record { code = pos 0; msg = none; detail_code = pos 0; detail_msg = none }

-- `round_error_setjsonrpcerrorcode`
unfoldable pub setjsonrpcerrorcode : RoundError → ℤ → RoundError
setjsonrpcerrorcode err rpc_code = record err {
  code = pos (errorcode2httpstatuscode rpc_code);
  detail_code = rpc_code;
  detail_msg = some (errorcode2string rpc_code);
}

-- The map of an error in a response: its code and its message, each where it has one.
pub record ErrorObject : Type 0 where
  pub rpc_code : Option ℤ
  pub message : Option ErrorMessage

-- The map that `round_json_rpc_seterror` makes
unfoldable pub error2object : RoundError → ErrorObject
error2object err = record { rpc_code = some err.detail_code; message = err.detail_msg }

-- `(int)errCode`, from a long to a 32-bit integer.
unfoldable pub to_int : ℤ → ℤ
to_int (pos n) = let r : ℕ = n % 2 ^ 32 in if ltb r (2 ^ 31) then pos r else negsuc (2 ^ 32 - 1 - r)
to_int (negsuc n) =
    let r : ℕ = n % 2 ^ 32 in if ltb r (2 ^ 31) then negsuc r else pos (2 ^ 32 - 1 - r)

-- `round_error_setjsonrpcerror`
unfoldable pub setjsonrpcerror : RoundError → ErrorObject → RoundError
unfolding setjsonrpcerrorcode
setjsonrpcerror err obj =
    let coded : RoundError = elim obj.rpc_code [
      | none ↦ err
      | some c ↦ record (setjsonrpcerrorcode err (to_int c)) { detail_code = to_int c }
    ] in
    elim obj.message [ none ↦ coded | some m ↦ record coded { detail_msg = some m } ]

-- A 32-bit integer.
abbrev pub IsInt : ℤ → Type 0
IsInt (pos n) = n < 2 ^ 31
IsInt (negsuc n) = n < 2 ^ 31

to_int_lem : (c : ℤ) → IsInt c → to_int c ≡ c
unfolding to_int
to_int_lem (pos n) h = let e : n % 2 ^ 32 ≡ n = mod-eq_of_lt (omega arith) in ground arith
to_int_lem (negsuc n) h = let e : n % 2 ^ 32 ≡ n = mod-eq_of_lt (omega arith) in ground arith

-- An error that is set by a 32-bit JSON-RPC code, made into the error object of a response and
-- read back into another error gives that error the code, the detail code and the detail message
-- of the first, and leaves its message.
pub setjsonrpcerror-error2object :
    (sent received : RoundError) (c : ℤ)
    → IsInt c
    → setjsonrpcerror received (error2object (setjsonrpcerrorcode sent c))
      ≡ record (setjsonrpcerrorcode sent c) { msg = received.msg }
unfolding setjsonrpcerror error2object setjsonrpcerrorcode
setjsonrpcerror-error2object sent received c h = rw (to_int_lem c h) refl

code_of : ErrorMessage → ℤ
code_of parser_error_msg = parser_error
code_of invalid_request_msg = invalid_request
code_of method_not_found_msg = method_not_found
code_of invalid_params_msg = invalid_params
code_of internal_error_msg = internal_error
code_of bad_destination_msg = bad_destination
code_of moved_permanently_msg = moved_permanently
code_of condition_failed_msg = condition_failed
code_of script_engine_internal_error_msg = script_engine_internal_error
code_of script_engine_not_found_msg = script_engine_not_found
code_of script_compile_error_msg = script_compile_error
code_of script_runtime_error_msg = script_runtime_error
code_of _ = pos 0

code_of-errorcode2string :
    (c : ℤ) → (errorcode2string c ≡ unknown_msg) ⊎ (code_of (errorcode2string c) ≡ c)
unfolding errorcode2string code_of
code_of-errorcode2string (pos n) = inl refl
code_of-errorcode2string (negsuc n) = ground arith

-- Two JSON-RPC codes with the same message are equal, unless that message is the one of an unknown
-- code.
pub errorcode2string_inj :
    (c d : ℤ)
    → errorcode2string c ≡ errorcode2string d
    → (c ≡ d) ⊎ (errorcode2string c ≡ unknown_msg)
errorcode2string_inj c d e = elim (code_of-errorcode2string c) [
  | inl u ↦ inr u
  | inr p ↦ elim (code_of-errorcode2string d) [
    | inl u ↦ inr (e ∙ u)
    | inr q ↦ inl (sym p ∙ ap code_of e ∙ q)
  ]
]
