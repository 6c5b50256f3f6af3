-- ===== src/Identity/Accepted.antt =====
-- Which peers the TLS verifiers accept.
use furcate_mesh.Prelude.{
  ◌≡◌, ◌↔◌, ◌⊎◌, refl, true, false, some, List, [], ◌∷◌, arith, inl, inr, Member, ok, Option-cases,
  Result-cases, Bool-cases, sym, ap, ◌∙◌,
}
use furcate_mesh.Prelude.Text.{Bytes, text_eq, text_eq_iff}
use furcate_mesh.Core.PeerId.{PeerId, from_bytes}
use furcate_mesh.Identity.{
  Ed25519, peer_id_to_spki, allow_list, server_trusted, client_trusted, contains, is_empty,
  verify_server_cert, verify_client_cert,
}

-- Different public keys have different DER forms.
abbrev pub IsInjective : {K : Type 0} → Ed25519 K → Type 0
IsInjective ed =
    (a b d : Bytes) → ed.to_public_key_der a ≡ some d → ed.to_public_key_der b ≡ some d → a ≡ b

module _ {K : Type 0} (ed : Ed25519 K) (inj : IsInjective ed) where
  of_key :
      (p q : PeerId) (spki : Bytes)
      → ed.to_public_key_der p.key ≡ some spki
      → ed.to_public_key_der q.key ≡ some spki
      → q ≡ p
  of_key p q spki h g = ap from_bytes (inj q.key p.key spki g h)

  contains-allow_list :
      (peers : List PeerId) (trusted : List Bytes) (q : PeerId) (presented : Bytes)
      → allow_list ed peers ≡ ok trusted
      → ed.to_public_key_der q.key ≡ some presented
      → (contains trusted presented ≡ true) ↔ Member q peers
  unfolding allow_list contains peer_id_to_spki
  contains-allow_list [] trusted q presented h d = ground arith
  contains-allow_list (p ∷ ps) trusted q presented h d =
      elim (Option-cases (ed.to_public_key_der p.key)) [
        | inl n ↦ cc
        | inr (spki, s) ↦ elim (Result-cases (allow_list ed ps)) [
          | inl (e, n) ↦ cc
          | inr (rest, r) ↦
              let same : trusted ≡ spki ∷ rest = ground (arith, s, r) in
              let ih = contains-allow_list ps rest q presented r d in
              rw (same) (
                λ e. elim (Bool-cases (text_eq spki presented)) [
                  | inl t ↦
                      inl (of_key p q spki s (d ∙ ap some (sym ((text_eq_iff spki presented).0 t))))
                  | inr t ↦ inr (ih.0 (ground (arith, t, e)))
                ],
                λ m. elim m [
                  | inl u ↦ ground (
                    arith,
                    text_eq_iff spki presented,
                    sym s ∙ ap (λ x. ed.to_public_key_der x.key) (sym u) ∙ d,
                  )
                  | inr u ↦ ground (arith, ih.1 u)
                ],
              )
        ]
      ]

  is_empty-allow_list :
      (p : PeerId) (ps : List PeerId) (trusted : List Bytes)
      → allow_list ed (p ∷ ps) ≡ ok trusted
      → is_empty trusted ≡ false
  unfolding allow_list is_empty
  is_empty-allow_list p ps [] h = absurd (ground (arith, h))
  is_empty-allow_list p ps (t ∷ ts) h = refl

  -- Where every key of the allow-list is valid, the server's verifier accepts the key of a peer
  -- exactly if the allow-list is empty or names the peer.
  pub verify_client_cert_iff :
      (allowed : List PeerId) (trusted : List Bytes) (q : PeerId) (presented : Bytes)
      → server_trusted ed allowed ≡ ok trusted
      → ed.to_public_key_der q.key ≡ some presented
      → (verify_client_cert trusted presented ≡ true) ↔ ((allowed ≡ []) ⊎ Member q allowed)
  unfolding server_trusted verify_client_cert
  verify_client_cert_iff [] trusted q presented h d =
      (λ e. inl refl, λ m. unfold allow_list is_empty in ground (arith, h))
  verify_client_cert_iff (p ∷ ps) trusted q presented h d =
      let some_key = is_empty-allow_list p ps trusted h in
      let (from, to) = contains-allow_list (p ∷ ps) trusted q presented h d in
      (
        λ e. inr (from (ground (arith, some_key, e))),
        λ m. elim m [ inl n ↦ cc | inr n ↦ ground (arith, to n) ],
      )

  -- Where the expected key is valid, the client's verifier accepts the key of a peer exactly if it
  -- is the expected peer.
  pub verify_server_cert_iff :
      (expected q : PeerId) (trusted : List Bytes) (presented : Bytes)
      → client_trusted ed expected ≡ ok trusted
      → ed.to_public_key_der q.key ≡ some presented
      → (verify_server_cert trusted presented ≡ true) ↔ (q ≡ expected)
  unfolding client_trusted verify_server_cert contains peer_id_to_spki
  verify_server_cert_iff expected q trusted presented h d =
      elim (Option-cases (ed.to_public_key_der expected.key)) [
        | inl n ↦ cc
        | inr (spki, s) ↦
            let same : trusted ≡ spki ∷ [] = ground (arith, s) in
            rw (same) (
              λ e.
                  of_key expected q spki s
                    (d ∙ ap some (sym ((text_eq_iff spki presented).0 (ground (arith, e))))),
              λ u. ground (
                arith,
                text_eq_iff spki presented,
                sym s ∙ ap (λ x. ed.to_public_key_der x.key) (sym u) ∙ d,
              ),
            )
      ]
