-- ===== src/Tests/Server.antt =====
-- The one-time codes' properties on short series of calls.
use remotelink.Prelude.{
  ℕ, ◌≤◌, ◌≡◌, ◌≢◌, refl, false, none, List, [], ◌∷◌, ◌++◌, arith, ℕ_discrete, String_discrete,
}
use remotelink.Text.{all_digits, is_ascii_digit, str_len}
use remotelink.Map.{lookup, insert, remove, remove_all}
use remotelink.Auth.Crypto.{plain_crypto, bytes_eq}
use remotelink.Auth.Otp.{
  OtpHash, verify_otp, validate_otp_format, otp_hash_domain, hash_otp_unkeyed,
}
use remotelink.Server.OtpStore.{
  MemoryOtpStore, store_hash, prefilter_bind, bind_loop, check_row, consume_for_session,
  consume_loop, new, bound, reversed,
}
use remotelink.Server.OtpStore.Row.{IsValid}
use remotelink.Server.OtpStore.Refinement.{Replaces, store_hash-Replaces}
use remotelink.Server.OtpStore.Histories.{
  Call, answers, table_answers, answers_as_table, new-IsValid, call, mint, bind, consume,
}
use remotelink.Server.OtpStore.Runs.{no_mint, mints_for, run, total}
use remotelink.Server.OtpStore.Guesses.{rejected, five_guesses}
use remotelink.Server.OtpStore.Sessions.{succeeded, accepted, consumed_once, consumed_was_bound}

abbrev code : List ℕ
code = b'1' ∷ b'2' ∷ b'3' ∷ b'4' ∷ b'5' ∷ b'6' ∷ []

abbrev wrong : List ℕ
wrong = b'1' ∷ b'2' ∷ b'3' ∷ b'4' ∷ b'5' ∷ b'7' ∷ []

-- The unkeyed hash, with the message as its own digest
abbrev stored_hash : OtpHash
stored_hash = record { digest = otp_hash_domain ++ code; salt = []; keyed = false }

abbrev later : ℕ
later = 900000000000

abbrev guess : List ℕ → Call
guess guessed = bind 7 guessed "s1" 1

abbrev minted_store : MemoryOtpStore
minted_store = (store_hash 7 stored_hash later 0 new).0

abbrev guesses : List Call
guesses = guess wrong ∷ guess wrong ∷ guess wrong ∷ guess wrong ∷ guess wrong ∷ []

abbrev served : List Call
served = guess wrong ∷ guess code ∷ consume 7 "s1" 2 ∷ []

answers_as_table_example :
    answers plain_crypto [] (mint 7 stored_hash later 0 ∷ served) new
    ≡ table_answers plain_crypto []
        (mint 7 stored_hash later 0 ∷ served)
        (record { next_id = 0; rows = λ host. none })
answers_as_table_example =
    answers_as_table plain_crypto [] (mint 7 stored_hash later 0 ∷ served) (omega arith)

minted-IsValid : IsValid minted_store
unfolding Replaces new
minted-IsValid = ((store_hash-Replaces 7 stored_hash later 0 new (omega arith) new-IsValid).1).0

five_guesses_example :
    (prefilter_bind plain_crypto 7 code [] "s1" 2 (run plain_crypto [] guesses minted_store)).1
    ≢ bound
unfolding no_mint mints_for total rejected call store_hash prefilter_bind bind_loop check_row
    verify_otp hash_otp_unkeyed validate_otp_format all_digits is_ascii_digit str_len bytes_eq
    otp_hash_domain lookup insert remove remove_all reversed new ℕ_discrete
five_guesses_example =
    five_guesses plain_crypto [] 7 guesses minted_store code "s1" 2 minted-IsValid (omega arith)
      refl (omega arith)

consumed_once_example : total plain_crypto [] (succeeded 7) served minted_store ≤ 1
unfolding no_mint mints_for store_hash new
consumed_once_example =
    consumed_once plain_crypto [] 7 served minted_store minted-IsValid (omega arith) refl

consumed_was_bound_example :
    1
    ≤ total plain_crypto []
        (accepted plain_crypto [] 7 "s1" stored_hash)
        (guess wrong ∷ guess code ∷ [])
        minted_store
unfolding no_mint mints_for call store_hash prefilter_bind bind_loop check_row verify_otp
    hash_otp_unkeyed validate_otp_format all_digits is_ascii_digit str_len bytes_eq otp_hash_domain
    lookup insert remove remove_all reversed new ℕ_discrete String_discrete run consume_for_session
    consume_loop
consumed_was_bound_example =
    consumed_was_bound plain_crypto [] 7 stored_hash later 0 "s1" 2 (guess wrong ∷ guess code ∷ [])
      new new-IsValid (omega arith) refl refl
