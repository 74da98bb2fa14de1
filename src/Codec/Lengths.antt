-- ===== src/Codec/Lengths.antt =====
-- `put_bytes` writes a length of 32 bits, whatever the length is.
use stratodb.Base.{
  ℕ, ◌+◌, ◌%◌, ◌^◌, ◌<◌, ◌≤◌, ◌≡◌, refl, sym, ap, ◌∙◌, subst, List, ◌++◌, append_assoc, length,
  length-append, length-take, take, drop, take-append-drop, be_bytes, length-be_bytes, arith,
}
use stratodb.Error.{ok}
use stratodb.Codec.{put_u32, put_bytes, bytes, take_bytes}
use stratodb.Codec.Reads.{Reads, Reads-bind, Reads-u32, Reads-take_bytes, Reads-after}

Reads-cut :
    (n : ℕ) (bs : List ℕ)
    → n < 2 ^ 32
    → n ≤ length bs
    → Reads bytes (be_bytes 4 n ++ take n bs) (take n bs)
unfolding bytes
Reads-cut n bs small within =
    Reads-bind _ _ (be_bytes 4 n) (take n bs) n (take n bs) (Reads-u32 n small) (
      subst (λ k. Reads (take_bytes k) (take n bs) (take n bs)) (length-take n bs within)
        (Reads-take_bytes (take n bs)))

put_bytes-cut :
    (n : ℕ) (buf bs rest : List ℕ)
    → length bs % 2 ^ 32 ≡ n
    → put_bytes buf bs ++ rest ≡ (buf ++ (be_bytes 4 n ++ take n bs)) ++ (drop n bs ++ rest)
unfolding put_bytes put_u32
put_bytes-cut n buf bs rest e =
    let back : take n bs ++ (drop n bs ++ rest) ≡ bs ++ rest =
      sym (append_assoc (take n bs) (drop n bs) rest)
      ∙ ap (λ t. t ++ rest) (take-append-drop n bs) in
    rw
      (
        e,
        append_assoc buf (be_bytes 4 n ++ take n bs) (drop n bs ++ rest),
        append_assoc (be_bytes 4 n) (take n bs) (drop n bs ++ rest),
        back,
      )
      (append_assoc (buf ++ be_bytes 4 n) bs rest ∙ append_assoc buf (be_bytes 4 n) (bs ++ rest))

length-cut :
    (n : ℕ) (buf bs : List ℕ)
    → n ≤ length bs
    → length (buf ++ (be_bytes 4 n ++ take n bs)) ≡ length buf + (4 + n)
length-cut n buf bs h = omega (
  arith,
  length-append buf (be_bytes 4 n ++ take n bs),
  length-append (be_bytes 4 n) (take n bs),
  length-be_bytes 4 n,
  length-take n bs h,
)

-- What `put_bytes` appended, `bytes` reads back from where it begins, cut to the length's remainder
-- by 2^32: all of it below 2^32 bytes, and a proper prefix from there on.
pub bytes-put_bytes :
    (buf bs rest : List ℕ)
    → length (put_bytes buf bs ++ rest) < 2 ^ 64
    → bytes (record { buf = put_bytes buf bs ++ rest; pos = length buf })
      ≡ ok (
        take (length bs % 2 ^ 32) bs,
        record { buf = put_bytes buf bs ++ rest; pos = length buf + (4 + length bs % 2 ^ 32) },
      )
bytes-put_bytes buf bs rest fits =
    let n = length bs % 2 ^ 32 in
    let small : n < 2 ^ 32 = omega arith in
    let within : n ≤ length bs = omega arith in
    let same = put_bytes-cut n buf bs rest refl in
    rw (same, ← length-cut n buf bs within)
      (Reads-after bytes buf (be_bytes 4 n ++ take n bs) (drop n bs ++ rest) (take n bs)
        (Reads-cut n bs small within) (rw same at fits))
