-- ===== src/Access/Permitted.antt =====
-- Which clients are served (webgui/internal/dnsserver/acl.go and pipeline.go, ServeDNS).
use resolix.Common.{
  ℕ, ◌+◌, ◌≡◌, refl, Bool, true, false, not, ◌&&◌, Option, if◌then◌else◌, Text, arith, if_intro,
}
use resolix.Access.Clientnets.{ClientNet, cidr_list_contains, is_internal_client_ip}
use resolix.Access.Limiter.{RateLimiter}
use resolix.Access.Gate.{
  Gate, Verdict, passes, drops, refuses, acl_drop, acl_allowlist_drop, default_acl_drop, take_token,
  limited, admit, serve_dns,
}

abbrev pub passed : Verdict → Bool
passed passes = true
passed drops = false
passed refuses = false

refused-passed : (b : Bool) → passed (if b then refuses else drops) ≡ false
refused-passed true = refl
refused-passed false = refl

module _ (cn : ClientNet) where
  open cn use {Network}

  -- A client that is not disallowed, and is in the allow list or, without one, of the own networks.
  abbrev pub permits : Gate Network → Text → Bool
  permits s ip =
      not (cidr_list_contains cn s.disallowed ip)
      && (if s.allowed_configured
          then cidr_list_contains cn s.allowed ip
          else is_internal_client_ip cn ip)

  abbrev pub dropped : Gate Network → ℕ
  dropped s = s.acl_dropped + s.acl_allowlist_dropped + s.rate_limit_dropped

  -- A result of the gate for a query of this client.
  pub record IsRight (s : Gate Network) (ip : Text) (now : ℕ) (r : Gate Network × Verdict)
      : Type 0 where
    pub decided : passed r.1 ≡ (permits s ip && (take_token cn s ip now).1)
    pub counted : dropped r.0 ≡ dropped s + (if passed r.1 then 0 else 1)
    pub charged :
        r.0.rate_limiter ≡ (if permits s ip then (take_token cn s ip now).0 else s.rate_limiter)
    pub silent : permits s ip ≡ false → r.1 ≡ drops

  drops-IsRight :
      (s n : Gate Network) (ip : Text) (now : ℕ)
      → permits s ip ≡ false
      → dropped n ≡ dropped s + 1
      → n.rate_limiter ≡ s.rate_limiter
      → IsRight s ip now (n, drops)
  drops-IsRight s n ip now p d r = record {
    decided = rw p refl;
    counted = d;
    charged = rw p r;
    silent = λ _. refl;
  }

  limited-IsRight :
      (s : Gate Network) (ip : Text) (edns : Bool) (now : ℕ) (r : Option RateLimiter × Bool)
      → permits s ip ≡ true
      → take_token cn s ip now ≡ r
      → IsRight s ip now (limited cn s edns r)
  limited-IsRight s ip edns now (rl, true) p e = record {
    decided = rw p (rw e refl);
    counted = omega arith;
    charged = rw p (rw e refl);
    silent = λ q. cc;
  }
  limited-IsRight s ip edns now (rl, false) p e = record {
    decided = rw p (rw e (refused-passed (s.limits.rate_limit_ede && edns)));
    counted = rw (refused-passed (s.limits.rate_limit_ede && edns)) (omega arith);
    charged = rw p (rw e refl);
    silent = λ q. cc;
  }

  -- A query that a listener receives goes on exactly if its client is not disallowed, is in the
  -- allow list or, when there is none, in the own networks, and the rate limiter admits it. A
  -- query of any other client gets no answer, and takes no token. Every query that does not go on
  -- is counted once.
  pub serve_dns-IsRight :
      (s : Gate Network) (ip : Text) (edns : Bool) (now : ℕ)
      → IsRight s ip now (serve_dns cn s ip edns now)
  unfolding serve_dns admit
  serve_dns-IsRight s ip edns now =
      if_intro (IsRight s ip now) (default_acl_drop cn s ip)
        (λ d. drops-IsRight s _ ip now (ground (arith, d)) (omega arith) refl)
        (λ d.
          if_intro (IsRight s ip now) (acl_drop cn s ip)
            (λ a. drops-IsRight s _ ip now (ground (arith, a)) (omega arith) refl)
            (λ a.
              if_intro (IsRight s ip now) (acl_allowlist_drop cn s ip)
                (λ b. drops-IsRight s _ ip now (ground (arith, b)) (omega arith) refl)
                (λ b.
                  limited-IsRight s ip edns now (take_token cn s ip now) (ground (arith, d, a, b))
                    refl)))
