-- ===== src/Dns/Glob.antt =====
-- packages/dns-server/src/overrides/overrides.rs: which hosts a pattern matches.
use tor_socks.Base.{
  length-map, drop, ℕ, zero, suc, ◌+◌, ◌*◌, ◌≤◌, ◌<◌, ◌≡◌, refl, sym, ap, subst, ◌∙◌, ◌≢◌, ◌↔◌, ◌⊎◌,
  inl, inr, Bool, true, false, Option, none, some, List, [], ◌∷◌, map, arith, length, Bool-cases,
  ◌==◌,
}
use tor_socks.OrdMap.Text.{Text}
use tor_socks.Dns.Overrides.{
  to_lower, all_stars, Star, resume, scan_host, host_matches, DnsOverride, find_override,
}

-- A pattern matches byte by byte, and a star matches any run of bytes.
pub data Fits : Text → Text → Type 0 where
  ended : Fits [] []
  byte : (x : ℕ) {p s : Text} → x ≢ 42 → Fits p s → Fits (x ∷ p) (x ∷ s)
  no_more : (x : ℕ) {p s : Text} → x ≡ 42 → Fits p s → Fits (x ∷ p) s
  one_more : (x c : ℕ) {p s : Text} → x ≡ 42 → Fits (x ∷ p) s → Fits (x ∷ p) (c ∷ s)

Fits-byte : {x c : ℕ} {p s : Text} → x ≢ 42 → Fits (x ∷ p) (c ∷ s) → (x ≡ c) × Fits p s
Fits-byte ne (byte x _ d) = (refl, d)
Fits-byte ne (no_more x e d) = absurd (ne e)
Fits-byte ne (one_more x c e d) = absurd (ne e)

Fits-star :
    {x : ℕ} {p : Text} (s : Text) → x ≡ 42 → Fits (x ∷ p) s ↔ (Fits p s ⊎ Fits (x ∷ p) (drop 1 s))
Fits-star {x} {p} s e = (forth s, back s)
  where
    forth : (t : Text) → Fits (x ∷ p) t → Fits p t ⊎ Fits (x ∷ p) (drop 1 t)
    forth t (byte y ne d) = absurd (ne e)
    forth t (no_more y _ d) = inl d
    forth t (one_more y c _ d) = inr d

    back : (t : Text) → Fits p t ⊎ Fits (x ∷ p) (drop 1 t) → Fits (x ∷ p) t
    back t (inl d) = no_more x e d
    back [] (inr d) = d
    back (c ∷ t) (inr d) = one_more x c e d

-- A byte of the pattern that follows a star can be skipped along with a byte of the host.
past_byte :
    {x y c : ℕ} {p : Text} (s : Text) → x ≡ 42 → y ≢ 42 → Fits (x ∷ y ∷ p) (c ∷ s) → Fits (x ∷ p) s
past_byte s e ne (byte x n d) = absurd (n e)
past_byte s e ne (no_more x _ d) = no_more x e (Fits-byte ne d).1
past_byte [] e ne (one_more x c _ (no_more _ _ (no_more _ f _))) = absurd (ne f)
past_byte (b ∷ s) e ne (one_more x c _ d) = one_more x b e (past_byte s e ne d)

two_stars : {x y : ℕ} {p s : Text} → x ≡ 42 → y ≡ 42 → Fits (x ∷ y ∷ p) s → Fits (y ∷ p) s
two_stars e f (byte x n d) = absurd (n e)
two_stars e f (no_more x _ d) = d
two_stars {y = y} e f (one_more x c _ d) = one_more y c f (two_stars e f d)

at_end : {x : ℕ} {p : Text} → Fits (x ∷ p) [] → Fits p []
at_end (no_more x e d) = d

all_stars-Fits : (p : Text) → (all_stars p ≡ true) ↔ Fits p []
unfolding all_stars
all_stars-Fits [] = (λ _. ended, λ _. refl)
all_stars-Fits (x ∷ p) =
    let (forth, back) = all_stars-Fits p in
    (
      λ h. no_more x (ground arith) (forth (ground arith)),
      λ d. ground (arith, end_star d, back (at_end d)),
    )
  where
    end_star : Fits (x ∷ p) [] → x ≡ 42
    end_star (no_more _ e d) = e

-- The answer is there, and it is right.
abbrev Settles : Type 0 → Option Bool → Type 0
Settles G none = ⊥
Settles G (some true) = G
Settles G (some false) = ¬ G

Settles-iff : {G H : Type 0} → G ↔ H → (r : Option Bool) → Settles G r → Settles H r
Settles-iff e none h = h
Settles-iff e (some true) h = e.0 h
Settles-iff e (some false) h = λ k. h (e.1 k)

Settles-some : {G : Type 0} (b : Bool) → (b ≡ true) ↔ G → Settles G (some b)
Settles-some true e = e.0 refl
Settles-some false e = λ g. ground (arith, e.1 g)

Settles-answer :
    {G : Type 0} (r : Option Bool) → Settles G r → (b : Bool) × (r ≡ some b) × ((b ≡ true) ↔ G)
Settles-answer none h = absurd h
Settles-answer (some true) g = (true, refl, (λ _. g, λ _. refl))
Settles-answer (some false) n = (false, refl, (λ e. ground arith, λ g. absurd (n g)))

-- What is left to find: a match from here, or one of the star with a longer match.
abbrev Left : Text → Text → Star → Type 0
Left p s none = Fits p s
Left p s (some (q, t)) = Fits p s ⊎ Fits (42 ∷ q) (drop 1 t)

-- A longer match of the star can be moved to where the scan is.
abbrev Covers : Text → Text → Star → Type 0
Covers p s none = Unit
Covers p s (some (q, t)) = (Fits (42 ∷ q) (drop 1 t) → Fits (42 ∷ p) s) × (length s ≤ length t)

-- The fuel that is enough: `m` bounds what the star may still take, `k` the patterns.
abbrev Room : ℕ → ℕ → ℕ → Text → Text → Star → Type 0
Room k m fuel p s none = (length s ≤ m) × (m * k + length p < fuel)
Room k m fuel p s (some (q, t)) = (length t ≤ m) × (length q < k) × (m * k + length p < fuel)

module _ (fuel x c : ℕ) (p s : Text) (star : Star) where
  at_star :
      (x == 42) ≡ true
      → scan_host fuel p (c ∷ s) (some (p, c ∷ s)) ≡ scan_host (suc fuel) (x ∷ p) (c ∷ s) star
  unfolding scan_host
  at_star h = ground (arith, h)

  at_byte :
      (x == 42) ≡ false
      → (x == c) ≡ true
      → scan_host fuel p s star ≡ scan_host (suc fuel) (x ∷ p) (c ∷ s) star
  unfolding scan_host
  at_byte h e = ground (arith, h, e)

  at_other :
      (x == 42) ≡ false
      → (x == c) ≡ false
      → resume star (scan_host fuel) ≡ scan_host (suc fuel) (x ∷ p) (c ∷ s) star
  unfolding scan_host
  at_other h e = ground (arith, h, e)

module _ (k : ℕ) where
  resumed :
      (fuel m c : ℕ) (p s : Text) (star : Star)
      → ((n : ℕ) (q t : Text) (r : Star)
          → length q < k
          → Covers q t r
          → Room k n fuel q t r
          → Settles (Left q t r) (scan_host fuel q t r))
      → Covers p (c ∷ s) star
      → Room k m (suc fuel) p (c ∷ s) star
      → ¬ Fits p (c ∷ s)
      → Settles (Left p (c ∷ s) star) (resume star (scan_host fuel))
  resumed fuel m c p s none again cov room no_match = no_match
  resumed fuel zero c p s (some (q, [])) again cov room no_match = absurd (omega (arith, cov.1))
  resumed fuel zero c p s (some (q, b ∷ t)) again cov room no_match = absurd (omega (arith, room.0))
  resumed fuel (suc m) c p s (some (q, [])) again cov room no_match = absurd (omega (arith, cov.1))
  resumed fuel (suc m) c p s (some (q, b ∷ t)) again cov room no_match =
      let star = Fits-star {x = 42} {p = q} t refl in
      Settles-iff
        (λ h. inr (star.1 h), λ h. elim h [ inl d ↦ absurd (no_match d) | inr d ↦ star.0 d ])
        (scan_host fuel q t (some (q, t)))
        (again m q t (some (q, t)) room.1 (λ d. star.1 (inr d), omega arith)
          (omega (arith, room.0), room.1, omega (arith, room.0, room.1, room.2)))

  Covers-byte :
      (x c : ℕ) (p s : Text) (star : Star) → x ≢ 42 → Covers (x ∷ p) (c ∷ s) star → Covers p s star
  Covers-byte x c p s none ne cov = tt
  Covers-byte x c p s (some (q, t)) ne cov =
      (λ d. past_byte s refl ne (cov.0 d), omega (arith, cov.1))

  Room-byte :
      (fuel m x c : ℕ) (p s : Text) (star : Star)
      → Room k m (suc fuel) (x ∷ p) (c ∷ s) star
      → Room k m fuel p s star
  Room-byte fuel m x c p s none room = (omega (arith, room.0), omega (arith, room.1))
  Room-byte fuel m x c p s (some (q, t)) room = (room.0, room.1, omega (arith, room.2))

  Left-byte :
      (x c : ℕ) (p s : Text) (star : Star)
      → x ≢ 42
      → x ≡ c
      → Left p s star ↔ Left (x ∷ p) (c ∷ s) star
  Left-byte x c p s star ne e = subst (λ b. Left p s star ↔ Left (x ∷ p) (b ∷ s) star) e (at star)
    where
      at : (r : Star) → Left p s r ↔ Left (x ∷ p) (x ∷ s) r
      at none = (byte x ne, λ d. (Fits-byte ne d).1)
      at (some (q, t)) = (
        λ h. elim h [ inl d ↦ inl (byte x ne d) | inr d ↦ inr d ],
        λ h. elim h [ inl d ↦ inl (Fits-byte ne d).1 | inr d ↦ inr d ],
      )

  -- At a star the question is whether it matches from here.
  Left-star :
      (x : ℕ) (p s : Text) (star : Star)
      → x ≡ 42
      → Covers (x ∷ p) s star
      → Left p s (some (p, s)) ↔ Left (x ∷ p) s star
  Left-star x p s star e =
      subst (λ y. Covers (y ∷ p) s star → Left p s (some (p, s)) ↔ Left (y ∷ p) s star) (sym e)
        (at star)
    where
      at : (r : Star) → Covers (42 ∷ p) s r → Left p s (some (p, s)) ↔ Left (42 ∷ p) s r
      at none cov = let f = Fits-star {x = 42} {p = p} s refl in (f.1, f.0)
      at (some (q, t)) cov =
          let f = Fits-star {x = 42} {p = p} s refl in
          (
            λ h. inl (f.1 h),
            λ h. elim h [ inl d ↦ f.0 d | inr d ↦ f.0 (two_stars refl refl (cov.0 d)) ],
          )

  Room-star :
      (fuel m x : ℕ) (p s : Text) (star : Star)
      → length p < k
      → Covers (x ∷ p) s star
      → Room k m (suc fuel) (x ∷ p) s star
      → Room k m fuel p s (some (p, s))
  Room-star fuel m x p s none small cov room = (room.0, small, omega (arith, room.1))
  Room-star fuel m x p s (some (q, t)) small cov room =
      (omega (arith, cov.1, room.0), small, omega (arith, room.2))

  Left-end : (p : Text) (star : Star) → Covers p [] star → Fits p [] ↔ Left p [] star
  Left-end p none cov = (λ d. d, λ d. d)
  Left-end p (some (q, t)) cov = (inl, λ h. elim h [ inl d ↦ d | inr d ↦ at_end (cov.0 d) ])

  scan_host-Settles :
      (fuel m : ℕ) (p s : Text) (star : Star)
      → length p < k
      → Covers p s star
      → Room k m fuel p s star
      → Settles (Left p s star) (scan_host fuel p s star)
  unfolding scan_host
  scan_host-Settles zero m p s none small cov room = omega (arith, room.1)
  scan_host-Settles zero m p s (some r) small cov room = omega (arith, room.2)
  scan_host-Settles (suc fuel) m p [] star small cov room =
      Settles-iff (Left-end p star cov) (some (all_stars p))
        (Settles-some (all_stars p) (all_stars-Fits p))
  scan_host-Settles (suc fuel) m [] (c ∷ s) star small cov room =
      resumed fuel m c [] s star (scan_host-Settles fuel) cov room (λ d. elim d [ ])
  scan_host-Settles (suc fuel) m (x ∷ p) (c ∷ s) star small cov room = elim (Bool-cases (x == 42)) [
    | inl is_star ↦
        let e : x ≡ 42 = ground (arith, is_star) in
        subst (Settles (Left (x ∷ p) (c ∷ s) star)) (at_star fuel x c p s star is_star) (
          Settles-iff (Left-star x p (c ∷ s) star e cov)
            (scan_host fuel p (c ∷ s) (some (p, c ∷ s)))
            (scan_host-Settles fuel m p (c ∷ s) (some (p, c ∷ s)) (omega (arith, small))
              (one_more 42 c refl, omega arith)
              (Room-star fuel m x p (c ∷ s) star (omega (arith, small)) cov room)))
    | inr no_star ↦
        let ne : x ≢ 42 = λ e. ground (arith, no_star, e) in
        elim (Bool-cases (x == c)) [
          | inl found ↦
              let e : x ≡ c = ground (arith, found) in
              subst (Settles (Left (x ∷ p) (c ∷ s) star)) (at_byte fuel x c p s star no_star found)
                (Settles-iff (Left-byte x c p s star ne e) (scan_host fuel p s star) (
                  scan_host-Settles fuel m p s star (omega (arith, small))
                    (Covers-byte x c p s star ne cov) (Room-byte fuel m x c p s star room)))
          | inr missed ↦
              subst (Settles (Left (x ∷ p) (c ∷ s) star))
                (at_other fuel x c p s star no_star missed)
                (resumed fuel m c (x ∷ p) s star (scan_host-Settles fuel) cov room
                  (λ d. ground (arith, missed, (Fits-byte ne d).0)))
        ]
  ]

-- The loop of `matches` ends, and it finds a host to match exactly when its text, in lower case,
-- fits the pattern in lower case.
pub host_matches-Fits :
    (pattern host : Text)
    → (b : Bool) × (host_matches pattern host ≡ some b)
      × ((b ≡ true) ↔ Fits (map to_lower pattern) (map to_lower host))
unfolding host_matches
host_matches-Fits pattern host =
    let p = map to_lower pattern in
    let h = map to_lower host in
    let answer =
      scan_host-Settles (suc (length pattern))
        (suc (length host * suc (length pattern) + length pattern)) (length host) p h none
        (omega (arith, length-map to_lower pattern)) tt
        (omega (arith, length-map to_lower host), omega (arith, length-map to_lower pattern)) in
    Settles-answer (host_matches pattern host) answer

-- The first entry whose pattern fits the host, if there is one.
abbrev pub HostFits : Text → DnsOverride → Type 0
HostFits host entry = Fits (map to_lower entry.pattern) (map to_lower host)

pub data IsFirst (host : Text) : List DnsOverride → Option DnsOverride → Type 0 where
  no_entry : IsFirst host [] none
  this_one :
      (entry : DnsOverride) (rest : List DnsOverride)
      → HostFits host entry
      → IsFirst host (entry ∷ rest) (some entry)
  a_later :
      (entry : DnsOverride) {rest : List DnsOverride} {found : Option DnsOverride}
      → ¬ HostFits host entry
      → IsFirst host rest found
      → IsFirst host (entry ∷ rest) found

-- The override of a host is the first in the list whose pattern fits it, in lower case both; there
-- is none exactly when no pattern fits.
pub find_override-IsFirst :
    (overrides : List DnsOverride) (host : Text)
    → IsFirst host overrides (find_override overrides host)
unfolding find_override
find_override-IsFirst [] host = no_entry
find_override-IsFirst (entry ∷ overrides) host =
    let rest = find_override-IsFirst overrides host in
    let (b, e, fits) = host_matches-Fits entry.pattern host in
    elim (Bool-cases b) [
      | inl yes_fits ↦
          let found : host_matches entry.pattern host ≡ some true = e ∙ ap some yes_fits in
          rw (found, find_override) (this_one entry overrides (fits.0 yes_fits))
      | inr no_fit ↦
          let missed : host_matches entry.pattern host ≡ some false = e ∙ ap some no_fit in
          rw (missed, find_override) (a_later entry (λ d. ground (arith, fits.1 d, no_fit)) rest)
    ]
