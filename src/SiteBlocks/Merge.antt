-- ===== src/SiteBlocks/Merge.antt =====
-- mergeRenderedSiteBlocks keeps what every site is served.
use sitey.Prelude.{
  ◌≡◌, ◌↔◌, refl, sym, ◌∙◌, inl, inr, ◌⊎◌, List, [], ◌∷◌, Bool-cases, arith, In, In-append_left,
  Option, Pairwise, false, true, All, ◌&&◌, append-In, In-append_right,
}
use sitey.Text.{Text, text_eq}
use sitey.Text.Equal.{text_eq→eq}
use sitey.SiteBlocks.{
  RenderedSiteBlock, add_block, merge_loop, merge_rendered_site_blocks, same_signature, texts_eq,
  email_of,
}

-- One of the blocks has the label, the body and the email.
abbrev pub Serves : List RenderedSiteBlock → Text → List Text → Text → Type 0
Serves [] label body email = ⊥
Serves (b ∷ blocks) label body email =
    (In label b.labels × (b.body_lines ≡ body) × (email_of b.tls_email ≡ email))
    ⊎ Serves blocks label body email

texts_eq→eq : (ss ts : List Text) → texts_eq ss ts ≡ true → ss ≡ ts
texts_eq→eq [] [] h = refl
texts_eq→eq [] (t ∷ ts) h = absurd (ground arith)
texts_eq→eq (s ∷ ss) [] h = absurd (ground arith)
texts_eq→eq (s ∷ ss) (t ∷ ts) h =
    let e = text_eq→eq s t (ground arith) in
    let k = texts_eq→eq ss ts (ground arith) in rw (e, k) refl

same_signature-eq :
    (m b : RenderedSiteBlock)
    → same_signature m b ≡ true
    → (email_of m.tls_email ≡ email_of b.tls_email) × (m.body_lines ≡ b.body_lines)
unfolding same_signature
same_signature-eq m b h = (
  text_eq→eq (email_of m.tls_email) (email_of b.tls_email) (ground arith),
  texts_eq→eq m.body_lines b.body_lines (ground arith),
)

-- what a block serves, added to what the merged blocks serve
add_block-Serves :
    (merged : List RenderedSiteBlock) (b : RenderedSiteBlock) (label : Text) (body : List Text)
    (email : Text)
    → Serves (add_block merged b) label body email
      ↔ (Serves merged label body email ⊎ Serves (b ∷ []) label body email)
unfolding add_block
add_block-Serves [] b label body email =
    ((λ s. inr s), (λ s. elim s [ inl i ↦ absurd i | inr i ↦ i ]))
add_block-Serves (m ∷ merged) b label body email = elim (Bool-cases (same_signature m b)) [
  | inr e ↦ rw e (
    (λ s. elim s [
      | inl i ↦ inl (inl i)
      | inr i ↦ elim ((add_block-Serves merged b label body email).0 i) [
        | inl j ↦ inl (inr j)
        | inr j ↦ inr j
      ]
    ]),
    (λ s. elim s [
      | inl (inl i) ↦ inl i
      | inl (inr i) ↦ inr ((add_block-Serves merged b label body email).1 (inl i))
      | inr i ↦ inr ((add_block-Serves merged b label body email).1 (inr i))
    ]),
  )
  | inl e ↦
      let (mail, lines) = same_signature-eq m b e in
      rw e (
        (λ s. elim s [
          | inl (i, at_body, at_email) ↦ elim (append-In m.labels b.labels label i) [
            | inl j ↦ inl (inl (j, at_body, at_email))
            | inr j ↦ inr (inl (j, sym lines ∙ at_body, sym mail ∙ at_email))
          ]
          | inr i ↦ inl (inr i)
        ]),
        (λ s. elim s [
          | inl (inl (i, at_body, at_email)) ↦
              inl (In-append_left m.labels b.labels label i, at_body, at_email)
          | inl (inr i) ↦ inr i
          | inr (inl (i, at_body, at_email)) ↦
              inl (In-append_right m.labels b.labels label i, lines ∙ at_body, mail ∙ at_email)
          | inr (inr i) ↦ absurd i
        ]),
      )
]

merge_loop-Serves :
    (merged blocks : List RenderedSiteBlock) (label : Text) (body : List Text) (email : Text)
    → Serves (merge_loop merged blocks) label body email
      ↔ (Serves merged label body email ⊎ Serves blocks label body email)
unfolding merge_loop
merge_loop-Serves merged [] label body email =
    ((λ s. inl s), (λ s. elim s [ inl i ↦ i | inr i ↦ absurd i ]))
merge_loop-Serves merged (b ∷ blocks) label body email = (
  (λ s. elim ((merge_loop-Serves (add_block merged b) blocks label body email).0 s) [
    | inr i ↦ inr (inr i)
    | inl i ↦ elim ((add_block-Serves merged b label body email).0 i) [
      | inl j ↦ inl j
      | inr (inl j) ↦ inr (inl j)
      | inr (inr j) ↦ absurd j
    ]
  ]),
  (λ s. elim s [
    | inl i ↦
        (merge_loop-Serves (add_block merged b) blocks label body email).1
          (inl ((add_block-Serves merged b label body email).1 (inl i)))
    | inr (inl i) ↦
        (merge_loop-Serves (add_block merged b) blocks label body email).1
          (inl ((add_block-Serves merged b label body email).1 (inr (inl i))))
    | inr (inr i) ↦ (merge_loop-Serves (add_block merged b) blocks label body email).1 (inr i)
  ]),
)

-- two blocks that merging would have joined
abbrev pub Unlike : RenderedSiteBlock → RenderedSiteBlock → Type 0
Unlike m b = same_signature m b ≡ false

add_block-All :
    (P : List Text → Option Text → Type 0) (merged : List RenderedSiteBlock) (b : RenderedSiteBlock)
    → All (λ (m : RenderedSiteBlock). P m.body_lines m.tls_email) merged
    → P b.body_lines b.tls_email
    → All (λ (m : RenderedSiteBlock). P m.body_lines m.tls_email) (add_block merged b)
unfolding add_block
add_block-All P [] b h k = (k, tt)
add_block-All P (m ∷ merged) b h k = elim (Bool-cases (same_signature m b)) [
  | inl e ↦ rw e h
  | inr e ↦ rw e (h.0, add_block-All P merged b h.1 k)
]

abbrev SignatureDiffers : RenderedSiteBlock → List Text → Option Text → Type 0
SignatureDiffers m body email =
    (text_eq (email_of m.tls_email) (email_of email) && texts_eq m.body_lines body) ≡ false

add_block-Unlike :
    (merged : List RenderedSiteBlock) (b : RenderedSiteBlock)
    → Pairwise Unlike merged
    → Pairwise Unlike (add_block merged b)
unfolding add_block same_signature
add_block-Unlike [] b h = (tt, tt)
add_block-Unlike (m ∷ merged) b h = elim (Bool-cases (same_signature m b)) [
  | inl e ↦ rw e h
  | inr e ↦ rw e (add_block-All (SignatureDiffers m) merged b h.0 e, add_block-Unlike merged b h.1)
]

merge_loop-Unlike :
    (merged blocks : List RenderedSiteBlock)
    → Pairwise Unlike merged
    → Pairwise Unlike (merge_loop merged blocks)
unfolding merge_loop
merge_loop-Unlike merged [] h = h
merge_loop-Unlike merged (b ∷ blocks) h =
    merge_loop-Unlike (add_block merged b) blocks (add_block-Unlike merged b h)

-- For every label, body and TLS email: one of the merged blocks has the three exactly if one of the blocks
-- that were rendered has them; and no two of the merged blocks have the same body and TLS email, so none is
-- left to merge.
pub merge_rendered_site_blocks-Serves :
    (blocks : List RenderedSiteBlock) (label : Text) (body : List Text) (email : Text)
    → (Serves (merge_rendered_site_blocks blocks) label body email ↔ Serves blocks label body email)
      × Pairwise Unlike (merge_rendered_site_blocks blocks)
unfolding merge_rendered_site_blocks
merge_rendered_site_blocks-Serves blocks label body email =
    let (to, from) = merge_loop-Serves [] blocks label body email in
    (
      ((λ s. elim (to s) [ inl i ↦ absurd i | inr i ↦ i ]), (λ s. from (inr s))),
      merge_loop-Unlike [] blocks tt,
    )
