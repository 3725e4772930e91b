-- ===== src/Listener/Address.antt =====
-- The address that a listener gets from its text.
use bordercontrol.Prelude.{
  ℕ, ◌+◌, ◌-◌, ◌*◌, ◌^◌, ◌≤◌, ◌<◌, ◌≡◌, ◌≢◌, refl, ap, sym, ◌∙◌, true, ◌&&◌, List, [], ◌∷◌, ◌++◌,
  Option, none, some, ok, returns, leb, length, arith,
}
use native.Mathlib.Nat.{pow-suc}
use bordercontrol.Listener.{pos, split, read_digits, digits, atoi, ip_or_any, new_listener}

-- A text that the separator does not stand in.
abbrev pub Without : ℕ → List ℕ → Type 0
Without sep [] = Unit
Without sep (c ∷ cs) = (c ≢ sep) × Without sep cs

pub split-Without : (sep : ℕ) (cs : List ℕ) → Without sep cs → split sep cs ≡ (cs, [])
unfolding split
split-Without sep [] h = refl
split-Without sep (c ∷ cs) h = rw (split-Without sep cs h.1) (ground arith)

-- The first piece ends at the first separator.
pub split-append :
    (sep : ℕ) (cs ds : List ℕ)
    → Without sep cs
    → split sep (cs ++ sep ∷ ds) ≡ (cs, (split sep ds).0 ∷ (split sep ds).1)
unfolding split
split-append sep [] ds h = ground arith
split-append sep (c ∷ cs) ds h = rw (split-append sep cs ds h.1) (ground arith)

abbrev pub AreDigits : List ℕ → Type 0
AreDigits [] = Unit
AreDigits (c ∷ cs) = (b'0' ≤ c) × (c ≤ b'9') × AreDigits cs

-- The number that digits stand for: each counts by its place.
unfoldable pub value : List ℕ → ℕ
value [] = 0
value (c ∷ cs) = (c - b'0') * 10 ^ length cs + value cs

-- A digit more moves the others by one place.
shifted : (n d p v : ℕ) → (10 * n + d) * p + v ≡ n * (p * 10) + (d * p + v)
shifted n d p v = grind arith

read_digits-value :
    (n : ℕ) (cs : List ℕ) → AreDigits cs → read_digits n cs ≡ some (n * 10 ^ length cs + value cs)
unfolding read_digits value
read_digits-value n [] h = ap some (omega arith)
read_digits-value n (c ∷ cs) (p, q, h) =
    let rest = read_digits-value (10 * n + (c - b'0')) cs h in
    let here : (leb b'0' c && leb c b'9') ≡ true = ground arith in
    rw here (
      rest
      ∙ ap some (
          shifted n (c - b'0') (10 ^ length cs) (value cs)
          ∙ ap (λ (k : ℕ). n * k + ((c - b'0') * 10 ^ length cs + value cs))
              (sym (pow-suc 10 (length cs)))))

AreDigits-Without : (cs : List ℕ) → AreDigits cs → Without b':' cs
AreDigits-Without [] h = tt
AreDigits-Without (c ∷ cs) (p, q, h) = (λ e. omega arith, AreDigits-Without cs h)

atoi-value :
    (c : ℕ) (cs : List ℕ)
    → AreDigits (c ∷ cs)
    → value (c ∷ cs) < 2 ^ 63
    → atoi (c ∷ cs) ≡ ok (pos (value (c ∷ cs)))
unfolding atoi digits
atoi-value c cs h small =
    let read : read_digits 0 (c ∷ cs) ≡ some (value (c ∷ cs)) =
      read_digits-value 0 (c ∷ cs) h ∙ ap some (omega arith) in
    ground arith

-- An address of a host without a colon and of a port that fits an `int`, written in digits, makes a
-- listener with that port, at the host's address, or at 0.0.0.0 if the host is no address.
pub new_listener-value :
    (parse_ip : List ℕ → Option ℕ) (host port : List ℕ) (proto : ℕ) (prefix : List ℕ) (inner : ℕ)
    → Without b':' host
    → AreDigits port
    → port ≢ []
    → value port < 2 ^ 63
    → new_listener parse_ip (host ++ b':' ∷ port) proto prefix inner
      ≡ returns (
        none,
        record {
          protocol = proto;
          ip = ip_or_any (parse_ip host);
          port = pos (value port);
          feed_in_container_prefix = prefix;
          inner_connection_port = inner;
        },
      )
unfolding new_listener
new_listener-value parse_ip host [] proto prefix inner plain written some_digits small =
    absurd (some_digits refl)
new_listener-value parse_ip host (c ∷ cs) proto prefix inner plain written some_digits small =
    rw
      (split-append b':' host (c ∷ cs) plain
        ∙ ap (λ pieces. (host, pieces.0 ∷ pieces.1))
            (split-Without b':' (c ∷ cs) (AreDigits-Without (c ∷ cs) written)))
      (rw (atoi-value c cs written small))
