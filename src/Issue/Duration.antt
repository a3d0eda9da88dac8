-- ===== src/Issue/Duration.antt =====
-- app/core/issue_sync.py: `_seconds_to_duration`, and GitLab's reading of such a duration.
use mirror_maestro.Common.{
  ℕ, zero, suc, append-nil, append_assoc, ◌+◌, ◌*◌, ◌-◌, ◌/◌, ◌%◌, ◌≡◌, refl, ◌∙◌, ap, true, false,
  Option, none, some, [], ◌∷◌, ◌++◌, arith, ltb, ◌==◌, if◌then◌else◌,
}
use mirror_maestro.Text.{Text, codes, decimal, is_empty, read, read-decimal, is_digit}

abbrev part : ℕ → Text → Text
part n unit = if ltb 0 n then decimal n ++ unit else []

abbrev join_parts : ℕ → ℕ → Text
join_parts hours minutes =
    let parts = part hours (codes "h") ++ part minutes (codes "m") in
    if is_empty parts then codes "0m" else parts

unfoldable pub seconds_to_duration : ℕ → Text
seconds_to_duration seconds = join_parts (seconds / 3600) ((seconds % 3600) / 60)

-- What a duration of hours and minutes stands for, in seconds.
abbrev minutes_of : ℕ → ℕ × Text → Option ℕ
minutes_of hours (n, []) = none
minutes_of hours (n, u ∷ []) = if u == b'm' then some (hours * 3600 + n * 60) else none
minutes_of hours (n, u ∷ (v ∷ rest)) = none

abbrev hours_of : ℕ × Text → Option ℕ
hours_of (n, []) = none
hours_of (n, u ∷ []) =
    if u == b'h' then some (n * 3600) else if u == b'm' then some (n * 60) else none
hours_of (n, u ∷ (v ∷ rest)) = if u == b'h' then minutes_of n (read 0 (v ∷ rest)) else none

abbrev pub duration_seconds : Text → Option ℕ
duration_seconds s = hours_of (read 0 s)

read_unit : (n u : ℕ) (rest : Text) → is_digit u ≡ false → read n (u ∷ rest) ≡ (n, u ∷ rest)
unfolding read
read_unit n u rest e = ground arith

is_empty-append : (s : Text) (c : ℕ) (r : Text) → is_empty (s ++ c ∷ r) ≡ false
is_empty-append [] c r = refl
is_empty-append (d ∷ s) c r = refl

hours_then :
    (n : ℕ) (s : Text) → is_empty s ≡ false → hours_of (n, b'h' ∷ s) ≡ minutes_of n (read 0 s)
hours_then n [] h = absurd (let bad = h in cc)
hours_then n (v ∷ rest) h = refl

read_printed :
    (n u : ℕ) (rest : Text) → is_digit u ≡ false → read 0 (decimal n ++ u ∷ rest) ≡ (n, u ∷ rest)
read_printed n u rest e = read-decimal n (u ∷ rest) ∙ read_unit n u rest e

minutes_read : (h m : ℕ) → minutes_of h (read 0 (decimal m ++ codes "m")) ≡ some (h * 3600 + m * 60)
minutes_read h m = rw (read_printed m b'm' [] refl)

-- The four shapes of a duration.
hours_only : (h : ℕ) → duration_seconds (decimal h ++ codes "h") ≡ some (h * 3600)
hours_only h = rw (read_printed h b'h' [] refl)

minutes_only : (m : ℕ) → duration_seconds (decimal m ++ codes "m") ≡ some (m * 60)
minutes_only m = rw (read_printed m b'm' [] refl)

hours_and_minutes :
    (h m : ℕ)
    → duration_seconds (decimal h ++ b'h' ∷ (decimal m ++ codes "m")) ≡ some (h * 3600 + m * 60)
hours_and_minutes h m =
    rw (read_printed h b'h' (decimal m ++ codes "m") refl) (
      hours_then h (decimal m ++ codes "m") (is_empty-append (decimal m) b'm' [])
      ∙ minutes_read h m)

unless_empty : (s : Text) → is_empty s ≡ false → (if is_empty s then codes "0m" else s) ≡ s
unless_empty s e = ground arith

read_part :
    (s t : Text) (n : ℕ)
    → s ≡ t
    → is_empty t ≡ false
    → duration_seconds t ≡ some n
    → duration_seconds (if is_empty s then codes "0m" else s) ≡ some n
read_part s t n same full r = ap duration_seconds (ap shown same ∙ unless_empty t full) ∙ r
  where
    shown : Text → Text
    shown x = if is_empty x then codes "0m" else x

part-suc : (n : ℕ) (unit : Text) → part (suc n) unit ≡ decimal (suc n) ++ unit
part-suc n unit = let e : ltb 0 (suc n) ≡ true = ground arith in rw e

join_parts-read : (h m : ℕ) → duration_seconds (join_parts h m) ≡ some (h * 3600 + m * 60)
join_parts-read zero zero = unfold read in refl
join_parts-read zero (suc m) =
    read_part (part (suc m) (codes "m")) (decimal (suc m) ++ codes "m") (0 * 3600 + suc m * 60)
      (part-suc m (codes "m")) (is_empty-append (decimal (suc m)) b'm' [])
      (minutes_only (suc m) ∙ ap some (omega arith))
join_parts-read (suc h) zero =
    read_part (part (suc h) (codes "h") ++ []) (decimal (suc h) ++ codes "h")
      (suc h * 3600 + 0 * 60) (append-nil (part (suc h) (codes "h")) ∙ part-suc h (codes "h"))
      (is_empty-append (decimal (suc h)) b'h' []) (hours_only (suc h) ∙ ap some (omega arith))
join_parts-read (suc h) (suc m) =
    let tail = decimal (suc m) ++ codes "m" in
    read_part (part (suc h) (codes "h") ++ part (suc m) (codes "m"))
      (decimal (suc h) ++ (codes "h" ++ tail)) (suc h * 3600 + suc m * 60)
      (rw (part-suc h (codes "h"), part-suc m (codes "m"))
        (append_assoc (decimal (suc h)) (codes "h") tail))
      (is_empty-append (decimal (suc h)) b'h' tail) (hours_and_minutes (suc h) (suc m))

-- GitLab reads the duration of `s` seconds back as `s` without the seconds of its last minute, and
-- so as nothing if there are less than sixty.
pub seconds_to_duration-read :
    (s : ℕ) → duration_seconds (seconds_to_duration s) ≡ some (s - s % 60)
unfolding seconds_to_duration
seconds_to_duration-read s = join_parts-read (s / 3600) ((s % 3600) / 60) ∙ ap some (omega arith)
