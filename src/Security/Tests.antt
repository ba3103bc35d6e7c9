-- ===== src/Security/Tests.antt =====
-- The second factor of security.go with a stand-in for the codecs.
use bitlab.Prelude.{
  zero, ap, ◌∙◌, ◌≡◌, refl, ℕ, suc, true, false, List, [], ◌∷◌, none, some, Bytes, bytes, bytes_eq,
  arith,
}
use bitlab.Prelude.Int.{ℤ, pos, negsuc, ◌+ℤ◌}
use bitlab.Prelude.Assoc.{lookup, insert}
use bitlab.Store.Keys.{unix}
use bitlab.Store.Sessions.{Settings, get_setting, set_setting}
use bitlab.Prelude.Trim.{trim_space}
use bitlab.Security.Totp.{verify_totp_step, try_steps, totp_code, step_of}
use bitlab.Security.SecondFactor.{
  Codecs, last_step, accept_step, accept_recovery, step_of_code, check_second_factor, spend,
  hash_recovery_code, recovery_hashes, is_code_byte,
}
use bitlab.Security.OneUse.{ReadsBack, check_second_factor_once, check_second_factor_closed}
use bitlab.Security.Recovery.{ReadsListBack, AreAscii, IsSpent, check_second_factor_spends}

-- A reversible form of an integer, and of a list of texts: every text ends in a zero.
abbrev format : ℤ → Bytes
format (pos n) = n ∷ []
format (negsuc n) = n ∷ 0 ∷ []

abbrev parse : Bytes → ℤ
parse [] = pos 0
parse (n ∷ []) = pos n
parse (n ∷ b ∷ rest) = negsuc n

abbrev encode_with : Bytes → Bytes → Bytes
encode_with [] rest = 0 ∷ rest
encode_with (x ∷ text) rest = suc x ∷ encode_with text rest

abbrev encode : List Bytes → Bytes
encode [] = []
encode (text ∷ texts) = encode_with text (encode texts)

abbrev push : ℕ → List Bytes → List Bytes
push x [] = (x ∷ []) ∷ []
push x (text ∷ texts) = (x ∷ text) ∷ texts

abbrev decode : Bytes → List Bytes
decode [] = []
decode (zero ∷ rest) = [] ∷ decode rest
decode (suc x ∷ rest) = push x (decode rest)

-- Every secret is its own key, and the HMAC is the message after some zeros.
abbrev stand_in : Codecs
stand_in = record {
  key_of = λ secret. some secret;
  mac = λ key message. 0 ∷ 0 ∷ 0 ∷ 0 ∷ message;
  digest = λ text. text;
  upper = λ text. text;
  parse_int = parse;
  format_int = format;
  decode_list = decode;
  encode_list = encode;
}

stand_in-ReadsBack : ReadsBack stand_in
stand_in-ReadsBack (pos n) fits = refl
stand_in-ReadsBack (negsuc n) fits = refl

decode-encode_with : (text rest : Bytes) → decode (encode_with text rest) ≡ text ∷ decode rest
decode-encode_with [] rest = refl
decode-encode_with (x ∷ text) rest = ap (push x) (decode-encode_with text rest)

stand_in-ReadsListBack : ReadsListBack stand_in
stand_in-ReadsListBack [] ascii = refl
stand_in-ReadsListBack (text ∷ texts) ascii =
    decode-encode_with text (encode texts) ∙ ap (◌∷◌ text) (stand_in-ReadsListBack texts ascii.1)

-- The recovery codes: the second is spent.
abbrev stored : List Bytes
stored = bytes "IJKLMNOP" ∷ bytes "ABCDEFGH" ∷ []

abbrev settings : Settings
settings = (bytes "totp_secret", bytes "s") ∷ (bytes "totp_recovery", encode stored) ∷ []

-- The settings after a code of step 63.
abbrev after_code : Settings
after_code =
    (bytes "totp_secret", bytes "s")
    ∷ (bytes "totp_recovery", encode stored)
    ∷ (bytes "totp_last_step", 63 ∷ [])
    ∷ []

abbrev now : ℤ
now = pos 1_920_000_000_000

code_step : step_of_code stand_in (trim_space (bytes " 000000")) now settings ≡ some (pos 63)
unfolding step_of_code verify_totp_step try_steps totp_code step_of unix get_setting lookup bytes_eq
    trim_space ◌+ℤ◌
code_step = refl

code_again : step_of_code stand_in (trim_space (bytes "000000")) now after_code ≡ some (pos 63)
unfolding step_of_code verify_totp_step try_steps totp_code step_of unix get_setting lookup bytes_eq
    trim_space ◌+ℤ◌
code_again = refl

code_passes : check_second_factor stand_in true (bytes " 000000") now settings ≡ (true, after_code)
unfolding check_second_factor accept_step last_step set_setting insert step_of_code verify_totp_step
    try_steps totp_code step_of unix get_setting lookup bytes_eq trim_space ◌+ℤ◌
code_passes = refl

check_second_factor_once_example :
    check_second_factor stand_in true (bytes "000000") now after_code ≡ (false, after_code)
check_second_factor_once_example =
    check_second_factor_once stand_in true true (bytes " 000000") (bytes "000000") now now settings
      after_code (pos 63) (pos 63) stand_in-ReadsBack (omega arith) code_step code_passes code_again
      (omega arith)

check_second_factor_closed_example :
    check_second_factor stand_in false (bytes "000000") now settings ≡ (false, settings)
check_second_factor_closed_example =
    check_second_factor_closed stand_in (bytes "000000") now settings

abbrev spent : Settings
spent =
    (bytes "totp_secret", bytes "s") ∷ (bytes "totp_recovery", encode (bytes "IJKLMNOP" ∷ [])) ∷ []

recovery_step : step_of_code stand_in (trim_space (bytes "ABCD-EFGH")) now settings ≡ none
unfolding step_of_code verify_totp_step try_steps totp_code step_of unix get_setting lookup bytes_eq
    trim_space ◌+ℤ◌
recovery_step = refl

recovery_passes : check_second_factor stand_in true (bytes "ABCD-EFGH") now settings ≡ (true, spent)
unfolding check_second_factor accept_recovery hash_recovery_code is_code_byte recovery_hashes spend
    set_setting insert step_of_code verify_totp_step get_setting lookup bytes_eq trim_space
recovery_passes = refl

stored_hashes : recovery_hashes stand_in settings ≡ stored
unfolding recovery_hashes get_setting lookup bytes_eq
stored_hashes = refl

all_ascii : AreAscii (recovery_hashes stand_in settings)
unfolding recovery_hashes get_setting lookup bytes_eq
all_ascii = omega arith

check_second_factor_spends_example :
    IsSpent (bytes "ABCDEFGH") (recovery_hashes stand_in settings) (recovery_hashes stand_in spent)
unfolding hash_recovery_code is_code_byte trim_space
check_second_factor_spends_example =
    check_second_factor_spends stand_in true (bytes "ABCD-EFGH") now settings spent
      stand_in-ReadsListBack all_ascii recovery_step recovery_passes
