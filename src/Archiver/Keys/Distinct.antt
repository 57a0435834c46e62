-- ===== src/Archiver/Keys/Distinct.antt =====
-- Which sessions have archives of their own, and which share one.
use trajproxy.Base.{
  ℕ, ◌≡◌, ◌≢◌, refl, sym, ap, Bool, Option, none, some, [], ◌∷◌, ◌++◌, nat_eq, All, length,
  length-append, arith,
}
use trajproxy.Texts.{Text}
use trajproxy.Archiver.Keys.{
  comma, slash, safe_path, null_session_dir, display, suffix, archive_key,
}

-- A code point that `_safe_path` leaves alone.
abbrev pub IsPlain : ℕ → Type 0
IsPlain c = (c ≢ comma) × (c ≢ slash)

-- A session that is NULL, or has a name of its own that is left alone.
abbrev pub IsNamed : Option Text → Type 0
IsNamed none = Unit
IsNamed (some t) = (t ≢ []) × (t ≢ null_session_dir) × All IsPlain t

safe_plain : (t : Text) → All IsPlain t → safe_path t ≡ t
unfolding safe_path
safe_plain [] h = refl
safe_plain (c ∷ t) (h, hs) = ground (arith, h, safe_plain t hs)

split_at_slash :
    (r r' a b : Text)
    → All IsPlain r
    → All IsPlain r'
    → r ++ (slash ∷ a) ≡ r' ++ (slash ∷ b)
    → (r ≡ r') × (a ≡ b)
split_at_slash [] [] a b h h' e = (refl, cc (e))
split_at_slash [] (c ∷ r') a b h (p, h') e = absurd (p.1 (cc (e)))
split_at_slash (c ∷ r) [] a b (p, h) h' e = absurd (p.1 (cc (e)))
split_at_slash (c ∷ r) (d ∷ r') a b (p, h) (p', h') e =
    let (x, y) = split_at_slash r r' a b h h' (cc (e)) in (cc (e, x), y)

cancel_end : (a b s : Text) → a ++ s ≡ b ++ s → a ≡ b
cancel_end [] [] s e = refl
cancel_end [] (d ∷ b) s e = absurd (omega (arith, ap (length {A = ℕ}) e, length-append {0} b s))
cancel_end (c ∷ a) [] s e = absurd (omega (arith, ap (length {A = ℕ}) e, length-append {0} a s))
cancel_end (c ∷ a) (d ∷ b) s e = let x = cancel_end a b s (cc (e)) in cc (e, x)

safe_display :
    (session : Option Text) → IsNamed session → safe_path (display session) ≡ display session
unfolding display safe_path
safe_display none h = refl
safe_display (some []) h = refl
safe_display (some (c ∷ t)) h = safe_plain (c ∷ t) (h.2)

display_names : (s s' : Option Text) → IsNamed s → IsNamed s' → display s ≡ display s' → s ≡ s'
unfolding display
display_names none none h h' e = refl
display_names none (some []) h h' e = absurd (h'.0 refl)
display_names none (some (c ∷ t)) h h' e = absurd (h'.1 (sym e))
display_names (some []) s' h h' e = absurd (h.0 refl)
display_names (some (c ∷ t)) none h h' e = absurd (h.1 e)
display_names (some (c ∷ t)) (some []) h h' e = absurd (h'.0 refl)
display_names (some (c ∷ t)) (some (d ∷ u)) h h' e = ap some e

-- Runs whose ids have no comma and no slash, and sessions that are NULL or whose ids have neither, are
-- not empty and not "_null_session": two of them with one key are the same run and the same session.
pub archive_key-distinct :
    (compress : Bool) (run run' : Text) (session session' : Option Text)
    → All IsPlain run
    → All IsPlain run'
    → IsNamed session
    → IsNamed session'
    → archive_key compress run session ≡ archive_key compress run' session'
    → (run ≡ run') × (session ≡ session')
unfolding archive_key
archive_key-distinct compress run run' session session' h h' k k' e =
    let a = safe_plain run h in
    let a' = safe_plain run' h' in
    let b = safe_display session k in
    let b' = safe_display session' k' in
    let (x, y) =
      split_at_slash run run' (display session ++ suffix compress)
        (display session' ++ suffix compress) h h' (cc (a, a', b, b', e)) in
    (x, display_names session session' k k' (cancel_end _ _ (suffix compress) y))

safe_twice : (t : Text) → safe_path (safe_path t) ≡ safe_path t
unfolding safe_path
safe_twice [] = refl
safe_twice (c ∷ t) = ground (arith, safe_twice t)

-- A session with an id that is not empty has the key of the session whose id has underscores in place
-- of the commas and slashes: the archive of one overwrites that of the other.
pub archive_key-collides :
    (compress : Bool) (run session : Text)
    → session ≢ []
    → archive_key compress run (some session) ≡ archive_key compress run (some (safe_path session))
unfolding archive_key display safe_path
archive_key-collides compress run [] h = absurd (h refl)
archive_key-collides compress run (c ∷ t) h =
    ap (λ (x : Text). safe_path run ++ (slash ∷ (x ++ suffix compress))) (sym (safe_twice (c ∷ t)))
