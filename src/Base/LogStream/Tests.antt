-- ===== src/Base/LogStream/Tests.antt =====
-- Texts of some integers, and the theorems at concrete ones.
use czy_net_frame.Common.{
  ℕ, ◌≤◌, ◌<◌, ◌≡◌, refl, some, List, [], ◌∷◌, arith, length, done, ℤ, negsuc,
}
use czy_net_frame.Base.FixedBuffer.{small_buffer, avail, empty}
use czy_net_frame.Base.LogStream.{
  convert, convert_hex, max_numeric_size, format_integer, put_address,
}
use czy_net_frame.Base.LogStream.Convert.{
  read_decimal, read_hex, convert-read_decimal, format_integer_lem,
}

-- The least `int64_t`.
abbrev least : ℤ
least = negsuc 9223372036854775807

convert-read_decimal_example :
    (s : List ℕ) × (convert least ≡ done s) × (read_decimal s ≡ some least) × (length s ≤ 21)
convert-read_decimal_example = convert-read_decimal least (omega arith)

format_integer_lem_example :
    (max_numeric_size ≤ avail (empty small_buffer)
      → ((s : List ℕ) × (format_integer (empty small_buffer) (negsuc 41)
            ≡ done (record { size = small_buffer; written = s }))
          × (read_decimal s ≡ some (negsuc 41)))
        × ((s : List ℕ) × (put_address (empty small_buffer) 255
              ≡ done (record { size = small_buffer; written = 48 ∷ 120 ∷ s }))
            × (read_hex s ≡ 255)))
    × (avail (empty small_buffer) < max_numeric_size
        → (format_integer (empty small_buffer) (negsuc 41) ≡ done (empty small_buffer))
          × (put_address (empty small_buffer) 255 ≡ done (empty small_buffer)))
format_integer_lem_example =
    format_integer_lem (empty small_buffer) (negsuc 41) 255 (omega arith) (omega arith)

-- -42 in decimal, and 48879 in hexadecimal.
convert_text :
    (convert (negsuc 41) ≡ done (45 ∷ 52 ∷ 50 ∷ []))
    × (convert_hex 48879 ≡ done (66 ∷ 69 ∷ 69 ∷ 70 ∷ []))
unfolding convert convert_hex
convert_text = (refl, refl)
