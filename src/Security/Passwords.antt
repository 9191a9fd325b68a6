-- ===== src/Security/Passwords.antt =====
-- app/security.py, validate_password_strength: the five criteria and the message that lists what is
-- missing.
use Prim.Native.String
use secure_api.Prelude.{
  ℕ, ◌≤◌, ◌≡◌, ◌↔◌, String, Text, codes, Bool, true, false, ◌&&◌, Option, none, some, List, [], ◌∷◌,
  ◌++◌, leb, length, any, ◌==◌, arith, Some, any_iff, leb→le,
}
use secure_api.Security.{Crypto}

is_upper : ℕ → Bool
is_upper ch = leb b'A' ch && leb ch b'Z'

is_lower : ℕ → Bool
is_lower ch = leb b'a' ch && leb ch b'z'

abbrev special_characters : Text
special_characters = codes "!@#$%^&*()_+-=[]{};':\"\\|,.<>/?`~"

is_special : ℕ → Bool
is_special ch = any (λ x. ch == x) special_characters

-- errors.append(message), if the test fails
abbrev pub missing : Bool → String → List String
missing true message = []
missing false message = message ∷ []

-- `\d` matches the decimal digits of every script: `is_decimal`
unfoldable pub password_errors : Crypto → Text → List String
unfolding is_upper is_lower is_special
password_errors c password =
    missing (leb 12 (length password)) "Password must be at least 12 characters long"
    ++ missing (any is_upper password) "Password must contain at least one uppercase letter"
    ++ missing (any is_lower password) "Password must contain at least one lowercase letter"
    ++ missing (any c.is_decimal password) "Password must contain at least one digit"
    ++ missing (any is_special password) "Password must contain at least one special character"

-- "; ".join(errors)
unfoldable pub join_errors : List String → String
join_errors [] = ""
join_errors (e ∷ []) = e
join_errors (e ∷ es) = String.◌++◌ e (String.◌++◌ "; " (join_errors es))

-- `some` is the message of the PasswordValidationError
abbrev pub error_message : List String → Option String
error_message [] = none
error_message (e ∷ es) = some (join_errors (e ∷ es))

unfoldable pub validate_password_strength : Crypto → Text → Option String
unfolding password_errors
validate_password_strength c password = error_message (password_errors c password)

-- What the policy asks for.
pub record IsStrong (c : Crypto) (password : Text) : Type 0 where
  pub long : 12 ≤ length password
  pub upper : Some (λ ch. (b'A' ≤ ch) × (ch ≤ b'Z')) password
  pub lower : Some (λ ch. (b'a' ≤ ch) × (ch ≤ b'z')) password
  pub digit : Some (λ ch. c.is_decimal ch ≡ true) password
  pub special : Some (λ ch. Some (λ x. ch ≡ x) special_characters) password

none-error_message :
    (a b d e f : Bool) (m n o p q : String)
    → (error_message (missing a m ++ missing b n ++ missing d o ++ missing e p ++ missing f q)
        ≡ none)
      ↔ ((a ≡ true) × (b ≡ true) × (d ≡ true) × (e ≡ true) × (f ≡ true))
none-error_message a b d e f m n o p q = ground arith

-- The policy accepts a password exactly when it has twelve characters at least, and an upper-case
-- letter, a lower-case letter, a digit and a special character among them.
pub validate_password_strength_iff :
    (c : Crypto) (password : Text)
    → (validate_password_strength c password ≡ none) ↔ IsStrong c password
unfolding validate_password_strength
validate_password_strength_iff c password =
    let uppers = any_iff is_upper (λ ch. (b'A' ≤ ch) × (ch ≤ b'Z')) (λ ch. ground arith) password in
    let lowers = any_iff is_lower (λ ch. (b'a' ≤ ch) × (ch ≤ b'z')) (λ ch. ground arith) password in
    let digits =
      any_iff c.is_decimal (λ ch. c.is_decimal ch ≡ true) (λ ch. (λ h. h, λ h. h)) password in
    let specials =
      any_iff is_special (λ ch. Some (λ x. ch ≡ x) special_characters)
        (λ ch. any_iff (λ x. ch == x) (λ x. ch ≡ x) (λ x. ground arith) special_characters)
        password in
    let tests =
      none-error_message (leb 12 (length password)) (any is_upper password) (any is_lower password)
        (any c.is_decimal password) (any is_special password) _ _ _ _ _ in
    (
      λ h.
          let (long, upper, lower, digit, special) = tests.0 h in
          record {
            long = leb→le _ _ long;
            upper = uppers.0 upper;
            lower = lowers.0 lower;
            digit = digits.0 digit;
            special = specials.0 special;
          },
      λ h. tests.1 (
        ground arith,
        uppers.1 h.upper,
        lowers.1 h.lower,
        digits.1 h.digit,
        specials.1 h.special,
      ),
    )
