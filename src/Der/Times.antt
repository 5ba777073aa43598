-- ===== src/Der/Times.antt =====
-- src/trust/der.js: the readers of times. `Date.UTC` is a parameter.
use tunnelfetch.Prelude.{
  ℕ, ◌+◌, ◌-◌, ◌*◌, ◌%◌, Bool, true, false, not, ◌&&◌, ◌||◌, [], ◌∷◌, ltb, leb, ◌==◌, if◌then◌else◌,
  length, get_or, take,
}
use tunnelfetch.Prelude.Int.{ℤ}
use tunnelfetch.Bytes.{Bytes, at}
use tunnelfetch.Errors.{Result, ok, err, ◌>>=◌}
use tunnelfetch.Der.{Tlv, parse_error, content, expect_tlv}
use tunnelfetch.Der.Values.{is_digit}
use tunnelfetch.Der.Tag

unfoldable pub days_in_month : ℕ → ℕ → ℕ
days_in_month y m =
    if m == 2
    then if y % 4 == 0 && (not (y % 100 == 0) || y % 400 == 0) then 29 else 28
    else get_or (31 ∷ 0 ∷ 31 ∷ 30 ∷ 31 ∷ 30 ∷ 31 ∷ 31 ∷ 30 ∷ 31 ∷ 30 ∷ 31 ∷ []) (m - 1) 0

abbrev all_digits : Bytes → Bool
all_digits [] = true
all_digits (b ∷ bs) = is_digit b && all_digits bs

-- `n`: the two digits at `i`.
abbrev two_digits : Bytes → ℕ → ℕ
two_digits c i = (at c i - 0x30) * 10 + (at c (i + 1) - 0x30)

-- The milliseconds since 1970 of a year, a month from 0, a day, an hour, a minute and a second.
module _ (date_utc : ℕ → ℕ → ℕ → ℕ → ℕ → ℕ → ℤ) where
  unfoldable pub to_epoch_ms : ℕ → ℕ → ℕ → ℕ → ℕ → ℕ → Result ℤ
  unfolding days_in_month
  to_epoch_ms y mo d h mi s =
      if ltb mo 1 || ltb 12 mo
      then err parse_error
      else if ltb d 1 || ltb (days_in_month y mo) d
      then err parse_error
      else if ltb 23 h || ltb 59 mi || ltb 59 s
      then err parse_error
      else ok (date_utc y (mo - 1) d h mi s)

  unfoldable pub utc_time_of : Bytes → Result ℤ
  unfolding to_epoch_ms
  utc_time_of c =
      if not (length c == 13) || not (at c 12 == 0x5a)
      then err parse_error
      else if not (all_digits (take 12 c))
      then err parse_error
      else let yy = two_digits c 0 in
        to_epoch_ms (if leb 50 yy then 1900 + yy else 2000 + yy) (two_digits c 2) (two_digits c 4)
          (two_digits c 6) (two_digits c 8) (two_digits c 10)

  unfoldable pub read_utc_time : Bytes → Tlv → Result ℤ
  unfolding utc_time_of content expect_tlv
  read_utc_time bytes t = do _ ← expect_tlv t Tag.utc_time false; utc_time_of (content bytes t)

  unfoldable pub generalized_time_of : Bytes → Result ℤ
  unfolding to_epoch_ms
  generalized_time_of c =
      if not (length c == 15) || not (at c 14 == 0x5a)
      then err parse_error
      else if not (all_digits (take 14 c))
      then err parse_error
      else to_epoch_ms (two_digits c 0 * 100 + two_digits c 2) (two_digits c 4) (two_digits c 6)
          (two_digits c 8) (two_digits c 10) (two_digits c 12)

  unfoldable pub read_generalized_time : Bytes → Tlv → Result ℤ
  unfolding generalized_time_of content expect_tlv
  read_generalized_time bytes t = do
    _ ← expect_tlv t Tag.generalized_time false
    generalized_time_of (content bytes t)

  unfoldable pub read_time : Bytes → Tlv → Result ℤ
  unfolding read_utc_time read_generalized_time
  read_time bytes t =
      if t.tag == Tag.utc_time
      then read_utc_time bytes t
      else if t.tag == Tag.generalized_time
      then read_generalized_time bytes t
      else err parse_error
