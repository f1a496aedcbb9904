-- ===== src/Registry/Keychain/Host.antt =====
-- `normalizeHost` and `decodeAuth` of internal/registry/keychain.go.
use image_updater_operator.Prelude.{
  append-nil, ℕ, suc, ◌+◌, ◌≡◌, ◌≢◌, refl, ◌∙◌, ap, none, [], ◌∷◌, ◌++◌, Bytes, codes, arith, ◌⊎◌,
  inl, inr, length, cut_prefix, cut_prefix-append,
}
use image_updater_operator.Prelude.Int.{pos, negsuc}
use image_updater_operator.Prelude.Strings.{Lacks, drop, take-append, index_byte-append}
use image_updater_operator.Prelude.Result.{ok}
use image_updater_operator.Registry.Keychain.{
  DecodeLib, index_of, drop_scheme, drop_path, normalize_host, split_colon, decode_auth,
}

-- A text that lacks a byte of another does not begin with that one, nor hold it.
cut_prefix-Lacks : (s p q : Bytes) (c : ℕ) → Lacks c s → cut_prefix s (p ++ c ∷ q) ≡ none
unfolding cut_prefix
cut_prefix-Lacks [] [] q c h = refl
cut_prefix-Lacks [] (d ∷ p) q c h = refl
cut_prefix-Lacks (e ∷ s) [] q c (n, h) = ground arith
cut_prefix-Lacks (e ∷ s) (d ∷ p) q c (n, h) = ground (arith, cut_prefix-Lacks s p q c h)

index_of-Lacks : (s p q : Bytes) (c : ℕ) → Lacks c s → index_of s (p ++ c ∷ q) ≡ negsuc 0
unfolding index_of
index_of-Lacks [] p q c h = ground (arith, cut_prefix-Lacks [] p q c h)
index_of-Lacks (d ∷ s) p q c (n, h) =
    ground (arith, index_of-Lacks s p q c h, cut_prefix-Lacks (d ∷ s) p q c (n, h))

cut_prefix-ne : (c d : ℕ) (s p : Bytes) → c ≢ d → cut_prefix (c ∷ s) (d ∷ p) ≡ none
unfolding cut_prefix
cut_prefix-ne c d s p n = ground arith

-- The first occurrence of a text stands behind what lacks its first byte.
index_of-append :
    (s t sep : Bytes) (c : ℕ)
    → Lacks c s
    → index_of (s ++ (c ∷ (sep ++ t))) (c ∷ sep) ≡ pos (length s)
unfolding index_of
index_of-append [] t sep c h = ground (arith, cut_prefix-append (c ∷ sep) t)
index_of-append (d ∷ s) t sep c (n, h) =
    ground (arith, index_of-append s t sep c h, cut_prefix-ne d c (s ++ (c ∷ (sep ++ t))) sep n)

drop-append : (s t : Bytes) (n : ℕ) → drop (length s + n) (s ++ t) ≡ drop n t
drop-append [] t n = ground arith
drop-append (c ∷ s) t n =
    let e : length (c ∷ s) + n ≡ suc (length s + n) = omega arith in rw e (drop-append s t n)

-- What may follow the host: nothing, or a path.
abbrev pub IsPathOrEmpty : Bytes → Type 0
IsPathOrEmpty rest = (rest ≡ []) ⊎ ((path : Bytes) × (rest ≡ b'/' ∷ path))

drop_path-host :
    (host rest : Bytes) → Lacks b'/' host → IsPathOrEmpty rest → drop_path (host ++ rest) ≡ host
unfolding drop_path
drop_path-host host rest h (inl e) =
    ground (arith, e, append-nil host, index_of-Lacks host [] [] b'/' h)
drop_path-host host rest h (inr (path, e)) =
    ap (λ (r : Bytes). drop_path (host ++ r)) e
    ∙ rw (index_of-append host path [] b'/' h, drop_path) (take-append host (b'/' ∷ path))

drop_scheme-append :
    (scheme rest : Bytes) → Lacks b':' scheme → drop_scheme (scheme ++ (codes "://" ++ rest)) ≡ rest
unfolding drop_scheme
drop_scheme-append scheme rest h =
    let e : index_of (scheme ++ (codes "://" ++ rest)) (codes "://") ≡ pos (length scheme) =
      index_of-append scheme rest (codes "//") b':' h in
    ground (arith, e, drop-append scheme (codes "://" ++ rest) 3)

-- The registry's host is what stands between the scheme, which holds no ':', and the path.
pub normalize_host-url :
    (scheme host rest : Bytes)
    → Lacks b':' scheme
    → Lacks b'/' host
    → IsPathOrEmpty rest
    → normalize_host (scheme ++ (codes "://" ++ (host ++ rest))) ≡ host
unfolding normalize_host
normalize_host-url scheme host rest s h r =
    rw (drop_scheme-append scheme (host ++ rest) s, normalize_host) (drop_path-host host rest h r)

-- A host, with or without a port, stays as it is.
pub normalize_host-host : (host : Bytes) → Lacks b'/' host → normalize_host host ≡ host
unfolding normalize_host drop_scheme drop_path
normalize_host-host host h =
    let no_scheme : index_of host (codes "://") ≡ negsuc 0 =
      index_of-Lacks host (codes ":") (codes "/") b'/' h in
    ground (arith, no_scheme, index_of-Lacks host [] [] b'/' h)

-- An auth string is the base64 form of the user, a ':' and the password, which may hold a ':'.
module _ (D : DecodeLib) where
  pub decode_auth-pair :
      (auth user password : Bytes)
      → D.base64 auth ≡ ok (user ++ b':' ∷ password)
      → Lacks b':' user
      → decode_auth D auth ≡ ok (user, password)
  unfolding decode_auth split_colon
  decode_auth-pair auth user password h u =
      let at = index_byte-append user password b':' u in
      let behind : drop (length user + 1) (user ++ b':' ∷ password) ≡ password =
        drop-append user (b':' ∷ password) 1 in
      let next : length user + 1 ≡ suc (length user) = omega arith in
      ground (arith, h, at, take-append user (b':' ∷ password), behind, next)
