-- ===== src/Keystore/Pem/Armour.antt =====
-- frontend/src/utils/platformKeystore.js: what `pemBodyToArrayBuffer` reads from a PEM file.
use hybrid_quantum_cryptogra.Prelude.{
  ℕ, zero, suc, ◌+◌, ◌≡◌, ◌≢◌, refl, ap, ◌∙◌, true, false, none, some, [], ◌∷◌, ◌++◌, arith, length,
  append-nil, length-append,
}
use hybrid_quantum_cryptogra.Js.{
  Text, lit, trim, is_space, is_empty, contains, Lacks, IsBlank, EndsKept, append-EndsKept,
  trim-append, Thrown, ok, trim_end,
}
use hybrid_quantum_cryptogra.Keystore.Platform.{Bytes, IsBytes, Browser}
use hybrid_quantum_cryptogra.Keystore.Pem.{
  after_prefix, after_label, after_marker, strip_markers, strip_all, without_space, pem_body,
  pem_body_to_array_buffer, decoded,
}

abbrev dashes : Text
dashes = lit "-----"

abbrev closing : Text → Text
closing label = lit "-----END " ++ (label ++ dashes)

-- A PEM file: its body between two markers with a label.
abbrev pub armoured : (label body : Text) → Text
armoured label body = lit "-----BEGIN " ++ (label ++ (dashes ++ (body ++ closing label)))

after_prefix-append : (p s : Text) → after_prefix p (p ++ s) ≡ some s
unfolding after_prefix
after_prefix-append [] s = refl
after_prefix-append (c ∷ p) s = ground (arith, after_prefix-append p s)

-- A label is not empty and holds no dash.
after_label-append :
    (label s : Text)
    → is_empty label ≡ false
    → Lacks b'-' label
    → after_label (label ++ (dashes ++ s)) ≡ some s
unfolding after_label is_empty lit after_prefix
after_label-append [] s given h = cc
after_label-append (c ∷ []) s given (other, h) = ground arith
after_label-append (c ∷ d ∷ label) s given (other, (next, h)) =
    ground (arith, after_label-append (d ∷ label) s refl (next, h))

-- No marker starts at any place of a text.
Unmarked : Text → Text → Type 0
Unmarked opening [] = Unit
Unmarked opening (c ∷ s) = (after_marker opening (c ∷ s) ≡ none) × Unmarked opening s

strip_markers-cons :
    (fuel : ℕ) (opening : Text) (c : ℕ) (s : Text)
    → after_marker opening (c ∷ s) ≡ none
    → strip_markers (suc fuel) opening (c ∷ s) ≡ c ∷ strip_markers fuel opening s
unfolding strip_markers
strip_markers-cons fuel opening c s absent = rw (absent, strip_markers) refl

strip_markers-marker :
    (fuel : ℕ) (opening : Text) (c : ℕ) (s rest : Text)
    → after_marker opening (c ∷ s) ≡ some rest
    → strip_markers (suc fuel) opening (c ∷ s) ≡ strip_markers fuel opening rest
unfolding strip_markers
strip_markers-marker fuel opening c s rest found = rw (found, strip_markers) refl

strip_markers-Unmarked :
    (fuel : ℕ) (opening s : Text) → Unmarked opening s → strip_markers fuel opening s ≡ s
unfolding strip_markers Unmarked
strip_markers-Unmarked zero opening s h = refl
strip_markers-Unmarked (suc fuel) opening [] h = refl
strip_markers-Unmarked (suc fuel) opening (c ∷ s) (absent, h) =
    strip_markers-cons fuel opening c s absent
    ∙ ap (λ (t : Text). c ∷ t) (strip_markers-Unmarked fuel opening s h)

undashed :
    (opening : Text) (c : ℕ) (s : Text) → c ≢ b'-' → after_marker (b'-' ∷ opening) (c ∷ s) ≡ none
unfolding after_marker after_prefix
undashed opening c s other = ground arith

Lacks-Unmarked :
    (opening s t : Text)
    → Lacks b'-' s
    → Unmarked (b'-' ∷ opening) t
    → Unmarked (b'-' ∷ opening) (s ++ t)
unfolding Unmarked
Lacks-Unmarked opening [] t h k = k
Lacks-Unmarked opening (c ∷ s) t (other, h) k =
    (undashed opening c (s ++ t) other, Lacks-Unmarked opening s t h k)

-- What comes before a marker stays, where the fuel suffices for it.
strip_markers-append :
    (fuel : ℕ) (opening s t : Text)
    → Lacks b'-' s
    → strip_markers (length s + fuel) (b'-' ∷ opening) (s ++ t)
      ≡ s ++ strip_markers fuel (b'-' ∷ opening) t
unfolding strip_markers
strip_markers-append fuel opening [] t h = rw (let e : 0 + fuel ≡ fuel = omega arith in e) refl
strip_markers-append fuel opening (c ∷ s) t (other, h) =
    ap (λ n. strip_markers n (b'-' ∷ opening) (c ∷ (s ++ t)))
      (let e : suc (length s) + fuel ≡ suc (length s + fuel) = omega arith in e)
    ∙ strip_markers-cons (length s + fuel) (b'-' ∷ opening) c (s ++ t)
        (undashed opening c (s ++ t) other)
    ∙ ap (λ (u : Text). c ∷ u) (strip_markers-append fuel opening s t h)

dashes-Unmarked : Unmarked (lit "-----BEGIN ") dashes
unfolding Unmarked after_marker after_prefix lit
dashes-Unmarked = (refl, (refl, (refl, (refl, (refl, tt)))))

closing-Unmarked : (label : Text) → Lacks b'-' label → Unmarked (lit "-----BEGIN ") (closing label)
unfolding Unmarked after_marker after_prefix lit
closing-Unmarked label h = (
  refl,
  (
    refl,
    (
      refl,
      (
        refl,
        (
          refl,
          (
            refl,
            (
              refl,
              (
                refl,
                (
                  refl,
                  unfold lit in Lacks-Unmarked (lit "----BEGIN ") label dashes h dashes-Unmarked,
                ),
              ),
            ),
          ),
        ),
      ),
    ),
  ),
)

after_marker-armoured :
    (opening label s : Text)
    → is_empty label ≡ false
    → Lacks b'-' label
    → after_marker opening (opening ++ (label ++ (dashes ++ s))) ≡ some s
unfolding after_marker
after_marker-armoured opening label s given h =
    rw (after_prefix-append opening (label ++ (dashes ++ s)), after_marker)
      (after_label-append label s given h)

begin_stripped :
    (fuel : ℕ) (label body : Text)
    → is_empty label ≡ false
    → Lacks b'-' label
    → Lacks b'-' body
    → strip_markers (suc fuel) (lit "-----BEGIN ") (armoured label body) ≡ body ++ closing label
unfolding lit
begin_stripped fuel label body given label_undashed body_undashed =
    strip_markers-marker fuel (lit "-----BEGIN ") b'-' _ (body ++ closing label)
      (after_marker-armoured (lit "-----BEGIN ") label (body ++ closing label) given label_undashed)
    ∙ strip_markers-Unmarked fuel (lit "-----BEGIN ") (body ++ closing label) (
        Lacks-Unmarked (lit "----BEGIN ") body (closing label) body_undashed
          (closing-Unmarked label label_undashed))

end_stripped :
    (fuel : ℕ) (label body : Text)
    → is_empty label ≡ false
    → Lacks b'-' label
    → Lacks b'-' body
    → strip_markers (length body + suc fuel) (lit "-----END ") (body ++ closing label) ≡ body
unfolding lit
end_stripped fuel label body given label_undashed body_undashed =
    strip_markers-append (suc fuel) (lit "----END ") body (closing label) body_undashed
    ∙ ap (λ (t : Text). body ++ t)
        (strip_markers-marker fuel (lit "-----END ") b'-' _ []
            (after_marker-armoured (lit "-----END ") label [] given label_undashed)
          ∙ strip_markers-Unmarked fuel (lit "-----END ") [] (unfold Unmarked in tt))
    ∙ append-nil body

strip_all-begin :
    (label body : Text)
    → is_empty label ≡ false
    → Lacks b'-' label
    → Lacks b'-' body
    → strip_all (lit "-----BEGIN ") (armoured label body) ≡ body ++ closing label
unfolding strip_all lit
strip_all-begin label body =
    begin_stripped (length (lit "----BEGIN " ++ (label ++ (dashes ++ (body ++ closing label)))))
      label body

strip_all-end :
    (label body : Text)
    → is_empty label ≡ false
    → Lacks b'-' label
    → Lacks b'-' body
    → strip_all (lit "-----END ") (body ++ closing label) ≡ body
unfolding strip_all lit
strip_all-end label body given label_undashed body_undashed =
    ap (λ n. strip_markers n (lit "-----END ") (body ++ closing label))
      (length-append body (closing label))
    ∙ end_stripped _ label body given label_undashed body_undashed

pem_body-armoured :
    (label body : Text)
    → is_empty label ≡ false
    → Lacks b'-' label
    → Lacks b'-' body
    → pem_body (armoured label body) ≡ without_space body
unfolding pem_body
pem_body-armoured label body given label_undashed body_undashed =
    ap (λ s. without_space (strip_all (lit "-----END ") s))
      (strip_all-begin label body given label_undashed body_undashed)
    ∙ ap without_space (strip_all-end label body given label_undashed body_undashed)

contains-append : (query s t : Text) → contains query t ≡ true → contains query (s ++ t) ≡ true
unfolding contains
contains-append query [] t h = h
contains-append query (c ∷ s) t h = ground (arith, contains-append query s t h)

armoured-begins : (label body : Text) → contains (lit "BEGIN") (armoured label body) ≡ true
unfolding contains lit
armoured-begins label body = refl

closing-ends : (label : Text) → contains (lit "END") (closing label) ≡ true
unfolding contains lit
closing-ends label = refl

dashes-EndsKept : EndsKept dashes
unfolding lit is_empty trim_end is_space
dashes-EndsKept = record { given = refl; end_kept = refl }

armoured-ends : (label body : Text) → contains (lit "END") (armoured label body) ≡ true
armoured-ends label body =
    contains-append (lit "END") (lit "-----BEGIN ") (label ++ (dashes ++ (body ++ closing label))) (
      contains-append (lit "END") label (dashes ++ (body ++ closing label)) (
        contains-append (lit "END") dashes (body ++ closing label)
          (contains-append (lit "END") body (closing label) (closing-ends label))))

armoured-EndsKept : (label body : Text) → EndsKept (armoured label body)
armoured-EndsKept label body = append-EndsKept (lit "-----BEGIN ") _ (
    append-EndsKept label _ (
      append-EndsKept dashes _ (
        append-EndsKept body _
          (append-EndsKept (lit "-----END ") _ (append-EndsKept label dashes dashes-EndsKept)))))

trim-armoured :
    (before label body after : Text)
    → IsBlank before
    → IsBlank after
    → trim (before ++ (armoured label body ++ after)) ≡ armoured label body
unfolding lit
trim-armoured before label body after blank_before blank_after =
    trim-append before b'-' _ after blank_before blank_after (unfold is_space in refl)
      (armoured-EndsKept label body)

-- The import of a PEM file reads the bytes that base64 wrote into its body, whatever white space stands
-- in the body and around the file, and whatever the label is, as long as it is not empty and neither it
-- nor the body holds a dash.
pub pem_body_to_array_buffer-armoured :
    (browser : Browser) (encoding_error : Thrown) (before label body after : Text) (bytes : Bytes)
    → IsBlank before
    → IsBlank after
    → is_empty label ≡ false
    → Lacks b'-' label
    → Lacks b'-' body
    → IsBytes bytes
    → without_space body ≡ browser.btoa bytes
    → pem_body_to_array_buffer browser encoding_error (before ++ (armoured label body ++ after))
      ≡ ok bytes
unfolding pem_body_to_array_buffer decoded
pem_body_to_array_buffer-armoured browser encoding_error before label body after bytes blank_before
      blank_after given label_undashed body_undashed in_range written =
    rw
      (
        trim-armoured before label body after blank_before blank_after,
        armoured-begins label body,
        armoured-ends label body,
        pem_body-armoured label body given label_undashed body_undashed,
        written,
        browser.atob-btoa bytes in_range,
      )
      refl
