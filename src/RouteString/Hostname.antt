-- ===== src/RouteString/Hostname.antt =====
-- What a valid hostname is made of: its characters, its last character, and what leaves it alone.
use sitey.Prelude.{
  ℕ, ◌≡◌, refl, ap, Bool, true, false, ◌||◌, List, [], ◌∷◌, ◌++◌, arith, ◌==◌, All, All-map,
  all_iff,
}
use sitey.Text.{Text, split, join, lower, to_lower_case, drop_final_dot, last_is}
use sitey.Text.Ends.{last_is-append}
use sitey.Text.Split.{join-split, join-All, split_cons}
use sitey.RouteString.{
  is_label_end, is_label_char, is_dns_label, is_hostname, is_segment_char, is_wildcard,
}

abbrev pub SegmentChars : Text → Type 0
SegmentChars s = All (λ c. is_segment_char c ≡ true) s

-- A hostname character: a lower-case letter, a digit, a hyphen or a dot.
abbrev pub HostChars : Text → Type 0
HostChars s = All (λ c. (is_label_char c || c == b'.') ≡ true) s

label-HostChars : (w : Text) → is_dns_label w ≡ true → HostChars w
unfolding is_dns_label is_label_char
label-HostChars [] h = tt
label-HostChars (c ∷ s) h = (
  ground arith,
  All-map (λ d. is_label_char d ≡ true) (λ d. (is_label_char d || d == b'.') ≡ true) s
      (λ d e. rw e refl) ((all_iff is_label_char s).0 (ground arith)),
)

labels-HostChars : (ws : List Text) → All (λ w. is_dns_label w ≡ true) ws → All HostChars ws
labels-HostChars [] h = tt
labels-HostChars (w ∷ ws) h = (label-HostChars w h.0, labels-HostChars ws h.1)

hostname-labels :
    (s : Text) → is_hostname s ≡ true → All (λ w. is_dns_label w ≡ true) (split b'.' s)
hostname-labels s h = (all_iff is_dns_label (split b'.' s)).0 (unfold is_hostname in h)

pub hostname-HostChars : (s : Text) → is_hostname s ≡ true → HostChars s
unfolding is_label_char
hostname-HostChars s h = rw (← join-split b'.' s) (
    join-All _ (b'.' ∷ []) (split b'.' s) (refl, tt)
      (labels-HostChars (split b'.' s) (hostname-labels s h)))

pub hostname-SegmentChars : (s : Text) → is_hostname s ≡ true → SegmentChars s
hostname-SegmentChars s h = All-map _ _ s (λ c e. host_char-segment c e) (hostname-HostChars s h)
  where
    host_char-segment : (c : ℕ) → (is_label_char c || c == b'.') ≡ true → is_segment_char c ≡ true
    host_char-segment c e = unfold is_segment_char in ground arith

lower-host_char : (c : ℕ) → (is_label_char c || c == b'.') ≡ true → lower c ≡ c
unfolding is_label_char lower
lower-host_char c e = ground arith

lower-HostChars : (s : Text) → HostChars s → to_lower_case s ≡ s
lower-HostChars [] h = refl
lower-HostChars (c ∷ s) h = cc (lower-host_char c h.0, lower-HostChars s h.1)

-- A valid hostname is in lower case.
pub hostname-lower : (s : Text) → is_hostname s ≡ true → to_lower_case s ≡ s
hostname-lower s h = lower-HostChars s (hostname-HostChars s h)

module _ (p : ℕ → Bool) where
  last_is-join :
      (sep w : Text) (ws : List Text)
      → All (λ v. last_is p v ≡ true) (w ∷ ws)
      → last_is p (join sep (w ∷ ws)) ≡ true
  unfolding join
  last_is-join sep w [] h = h.0
  last_is-join sep w (v ∷ ws) h =
      last_is-append p w (sep ++ join sep (v ∷ ws))
        (last_is-append p sep (join sep (v ∷ ws)) (last_is-join sep v ws h.1))

label-last : (w : Text) → is_dns_label w ≡ true → last_is is_label_end w ≡ true
unfolding is_dns_label
label-last [] h = h
label-last (c ∷ s) h = ground arith

-- A valid hostname ends in a letter or a digit.
pub hostname-last : (s : Text) → is_hostname s ≡ true → last_is is_label_end s ≡ true
hostname-last s h =
    let (w, ws, q) = split_cons b'.' s in
    let labels = All-map _ _ (split b'.' s) label-last (hostname-labels s h) in
    rw (← join-split b'.' s) (rw q (last_is-join is_label_end (b'.' ∷ []) w ws (rw q at labels)))

drop_final_dot_of_last : (s : Text) → last_is is_label_end s ≡ true → drop_final_dot s ≡ s
unfolding drop_final_dot is_label_end
drop_final_dot_of_last [] h = refl
drop_final_dot_of_last (c ∷ []) h = ground arith
drop_final_dot_of_last (c ∷ d ∷ s) h = ap (λ t. c ∷ t) (drop_final_dot_of_last (d ∷ s) h)

pub hostname-drop_final_dot : (s : Text) → is_hostname s ≡ true → drop_final_dot s ≡ s
hostname-drop_final_dot s h = drop_final_dot_of_last s (hostname-last s h)

not_wildcard : (s : Text) → SegmentChars s → is_wildcard s ≡ false
unfolding is_wildcard is_segment_char
not_wildcard [] h = refl
not_wildcard (c ∷ []) h = ground arith
not_wildcard (c ∷ d ∷ s) h = ground arith

-- A valid hostname is no wildcard.
pub hostname-not_wildcard : (s : Text) → is_hostname s ≡ true → is_wildcard s ≡ false
hostname-not_wildcard s h = not_wildcard s (hostname-SegmentChars s h)
