-- ===== src/Der/Tag.antt =====
-- src/trust/der.js: `TAG`, the universal tag numbers that the readers ask for.
use tunnelfetch.Prelude.{ℕ}

abbrev pub boolean : ℕ
boolean = 1

abbrev pub integer : ℕ
integer = 2

abbrev pub bit_string : ℕ
bit_string = 3

abbrev pub oid : ℕ
oid = 6

abbrev pub utf8_string : ℕ
utf8_string = 12

abbrev pub sequence : ℕ
sequence = 16

abbrev pub numeric_string : ℕ
numeric_string = 18

abbrev pub printable_string : ℕ
printable_string = 19

abbrev pub teletex_string : ℕ
teletex_string = 20

abbrev pub ia5_string : ℕ
ia5_string = 22

abbrev pub utc_time : ℕ
utc_time = 23

abbrev pub generalized_time : ℕ
generalized_time = 24

abbrev pub visible_string : ℕ
visible_string = 26

abbrev pub bmp_string : ℕ
bmp_string = 30
