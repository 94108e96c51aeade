-- ===== src/Pairing/Hosts.antt =====
-- cli.py: the host of a pairing's URL is among the hosts that are let in.
use text.Mathlib.TextLemmas.{nil-append, cons-append}
use hermes_stagewhisper_plug.Prelude.{
  ◌≡◌, refl, ◌∙◌, ap, sym, inl, inr, String, Char, code, Bool, true, false, not, ◌||◌, List, [],
  ◌∷◌, ◌==◌, eqb, Bool-cases, eq_refl, eq_iff, map, keep_if, some, arith,
}
use hermes_stagewhisper_plug.Text.{◌<>◌, is_empty, one_of, split_on, strip, lower}
use hermes_stagewhisper_plug.Text.Lines.{
  has_char, strip_char, strip_char_left, strip_char_right, end_or,
}
use hermes_stagewhisper_plug.Models.Urls.{UrlHost, allowed_ingress_hosts}
use hermes_stagewhisper_plug.Pairing.{with_ingress_host}

or_false : (a b : Bool) → (a || b) ≡ false → (a ≡ false) × (b ≡ false)
or_false a b h = ground (arith, h)

module _ (host : String) (whole : has_char b',' host ≡ false) (there : is_empty host ≡ false) where
  -- After a comma, and at the end of a text.
  tail : String
  tail = String.◌∷◌ "," host

  split-host : (s : String) → has_char b',' s ≡ false → split_on b',' s ≡ s ∷ []
  unfolding split_on has_char
  split-host String.[] h = refl
  split-host (String.◌∷◌ c s) h =
      let (hc, hs) = or_false (eqb (code c) b',') (has_char b',' s) h in
      rw (split_on, split-host s hs, hc) refl

  strip_char_left-host : (s : String) → has_char b',' s ≡ false → strip_char_left b',' s ≡ s
  unfolding strip_char_left has_char
  strip_char_left-host String.[] h = refl
  strip_char_left-host (String.◌∷◌ c s) h =
      rw (strip_char_left, (or_false (eqb (code c) b',') (has_char b',' s) h).0) refl

  strip_char_right-host : (s : String) → has_char b',' s ≡ false → strip_char_right b',' s ≡ s
  unfolding strip_char_right has_char
  strip_char_right-host String.[] h = refl
  strip_char_right-host (String.◌∷◌ c s) h =
      let (hc, hs) = or_false (eqb (code c) b',') (has_char b',' s) h in
      rw (strip_char_right, strip_char_right-host s hs) (kept c s hc)
    where
      kept : (c : Char) (s : String) → eqb (code c) b',' ≡ false → end_or b',' c s ≡ String.◌∷◌ c s
      kept c String.[] e = rw e refl
      kept c (String.◌∷◌ d s) e = refl

  end_or-full : (c : Char) (s : String) → is_empty s ≡ false → end_or b',' c s ≡ String.◌∷◌ c s
  end_or-full c String.[] h = cc
  end_or-full c (String.◌∷◌ d s) h = refl

  full : (s : String) → is_empty (s <> tail) ≡ false
  unfolding tail
  full String.[] = rw nil-append refl
  full (String.◌∷◌ c s) = rw cons-append refl

  strip_char_right-tail : (s : String) → strip_char_right b',' (s <> tail) ≡ s <> tail
  unfolding strip_char_right tail
  strip_char_right-tail String.[] =
      rw (nil-append, strip_char_right, strip_char_right-host host whole)
        (end_or-full "," host there)
  strip_char_right-tail (String.◌∷◌ c s) =
      rw (cons-append, strip_char_right, strip_char_right-tail s)
        (end_or-full c (s <> tail) (full s))

  split-tail :
      (s : String)
      → (part : String) × (parts : List String) × (split_on b',' (s <> tail) ≡ part ∷ parts)
        × (one_of parts host ≡ true)
  unfolding split_on tail
  split-tail String.[] =
      ("", host ∷ [], rw (nil-append, split_on, split-host host whole) refl, rw eq_refl refl)
  split-tail (String.◌∷◌ c s) =
      let (part, parts, e, h) = split-tail s in
      elim (Bool-cases (eqb (code c) b',')) [
        | inl comma ↦
            ("", part ∷ parts, rw (cons-append, split_on, e, comma) refl, ground (arith, h))
        | inr other ↦ (String.◌∷◌ c part, parts, rw (cons-append, split_on, e, other) refl, h)
      ]

  stripped-tail :
      (s : String) → one_of (split_on b',' (strip_char_left b',' (s <> tail))) host ≡ true
  unfolding strip_char_left tail
  stripped-tail String.[] =
      rw
        (
          nil-append,
          strip_char_left,
          strip_char_left-host host whole,
          split-host host whole,
          eq_refl,
        )
        refl
  stripped-tail (String.◌∷◌ c s) = elim (Bool-cases (eqb (code c) b',')) [
    | inl comma ↦ rw (cons-append, strip_char_left, comma) (stripped-tail s)
    | inr other ↦
        (let (part, parts, e, h) = split-tail (String.◌∷◌ c s) in
          rw (cons-append, strip_char_left, other, sym (cons-append c s tail), e)
            (ground (arith, h)))
  ]

with_ingress_host-listed :
    (allowed_hosts ingress_host : String)
    → has_char b',' ingress_host ≡ false
    → is_empty ingress_host ≡ false
    → one_of (split_on b',' (with_ingress_host allowed_hosts ingress_host)) ingress_host ≡ true
unfolding with_ingress_host strip_char tail
with_ingress_host-listed allowed_hosts ingress_host whole there =
    elim (Bool-cases (one_of (split_on b',' allowed_hosts) ingress_host)) [
      | inl listed ↦ rw (there, listed, with_ingress_host) listed
      | inr new ↦
          rw
            (
              there,
              new,
              with_ingress_host,
              cons-append,
              nil-append,
              strip_char_right-tail ingress_host whole there allowed_hosts,
            )
            (stripped-tail ingress_host whole there allowed_hosts)
    ]

mapped :
    (f : String → String) (test : String → Bool) (h : String) (xs : List String)
    → f h ≡ h
    → test h ≡ true
    → one_of xs h ≡ true
    → one_of (map f (keep_if test xs)) h ≡ true
mapped f test h [] same ok listed = cc
mapped f test h (x ∷ xs) same ok listed = elim (Bool-cases (x == h)) [
  | inl e ↦ (let is_h = (eq_iff x h).0 e in rw (is_h, ok, same, eq_refl) refl)
  | inr e ↦
      (let rest = mapped f test h xs same ok (ground (arith, e, listed)) in
        elim (Bool-cases (test x)) [ inl t ↦ rw t (ground (arith, rest)) | inr t ↦ rw t rest ])
]

listed-full :
    (raw h : String)
    → is_empty h ≡ false
    → one_of (split_on b',' raw) h ≡ true
    → is_empty raw ≡ false
unfolding split_on
listed-full String.[] h there listed =
    ap is_empty ((eq_iff "" h).0 (ground (arith, listed))) ∙ there
listed-full (String.◌∷◌ c s) h there listed = refl

-- Once `_cmd_pair_code` has kept the host of a relay's URL, `allowed_ingress_hosts`, which the
-- listener's guard and the check of callback URLs ask, has it among its hosts, whatever hosts were
-- kept before. The host is not empty, has no comma, and is as `strip` and `lower` leave it.
pub with_ingress_host-allowed :
    (urls : UrlHost) (allowed_hosts ingress_host : String)
    → has_char b',' ingress_host ≡ false
    → is_empty ingress_host ≡ false
    → strip ingress_host ≡ ingress_host
    → lower ingress_host ≡ ingress_host
    → one_of
        (allowed_ingress_hosts (record urls {
          allow_ingress_hosts = some (with_ingress_host allowed_hosts ingress_host);
        }))
        ingress_host
      ≡ true
unfolding allowed_ingress_hosts
with_ingress_host-allowed urls allowed_hosts ingress_host whole there stripped lowered =
    let raw = with_ingress_host allowed_hosts ingress_host in
    let listed = with_ingress_host-listed allowed_hosts ingress_host whole there in
    rw (listed-full raw ingress_host there listed) (
      mapped (λ e. lower (strip e)) (λ e. not (is_empty (strip e))) ingress_host (split_on b',' raw)
        (ap lower stripped ∙ lowered) (rw (stripped, there) refl) listed)
