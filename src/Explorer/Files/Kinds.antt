-- ===== src/Explorer/Files/Kinds.antt =====
-- `fileIcon` of FileIcon.ts and `checkTypeSupport` of FileListTile.tsx.
use web_ssh_tool.Common.{
  ◌≡◌, refl, inl, inr, Bool, true, false, not, ◌||◌, some, List, [], ◌∷◌, ◌++◌, every, keep, arith,
  if◌then◌else◌, Bool-cases,
}
use web_ssh_tool.Common.Text.{Text, lit, eq_text, eq_text_iff}
use web_ssh_tool.Explorer.Files.{
  to_lower_case, one_of, images, audios, videos, archives, supported, Icon, image, headphones,
  videocam, folder_zip, text_snippet, icon_of_extension, check_type_support,
}

-- A case of the switch has whatever every case has.
case_has :
    (p : Text → Bool) (cases : List Text) (t : Text)
    → every p cases ≡ true
    → one_of cases t ≡ true
    → p t ≡ true
case_has p [] t h k = absurd (ground arith)
case_has p (c ∷ cases) t h k = elim (Bool-cases (eq_text c t)) [
  | inl same ↦ rw (← (eq_text_iff c t).0 same) (ground arith)
  | inr other ↦ case_has p cases t (ground arith) (ground arith)
]

-- The extensions that are previewed among those with an icon.
abbrev pub previewed : Icon → List Text
previewed image = keep (λ c. not (eq_text c (lit "raw"))) images
previewed headphones = lit "mp3" ∷ lit "ogg" ∷ lit "wav" ∷ []
previewed videocam = lit "mp4" ∷ lit "webm" ∷ []
previewed text_snippet = lit "txt" ∷ lit "pdf" ∷ lit "json" ∷ []
previewed _ = []

module _ (su : List Text) where
  -- The two lists agree on a text.
  agrees : List Text → Text → Bool
  agrees xs t = if one_of su t then one_of xs t else not (one_of xs t)

  agrees-eq : (xs : List Text) (t : Text) → agrees xs t ≡ true → one_of su t ≡ one_of xs t
  unfolding agrees
  agrees-eq xs t h = ground arith

  -- Outside the other lists the supported texts are those of the last one.
  last_eq :
      (xs others : List Text) (t : Text)
      → every (λ c. one_of xs c || one_of others c) su ≡ true
      → every (one_of su) xs ≡ true
      → one_of others t ≡ false
      → one_of su t ≡ one_of xs t
  last_eq xs others t h k n = elim (Bool-cases (one_of su t)) [
    | inl s ↦ let either = case_has (λ c. one_of xs c || one_of others c) su t h s in ground arith
    | inr s ↦ elim (Bool-cases (one_of xs t)) [
      | inl x ↦ let both = case_has (one_of su) xs t k x in ground arith
      | inr x ↦ ground arith
    ]
  ]

one_of-append : (xs ys : List Text) (t : Text) → one_of (xs ++ ys) t ≡ (one_of xs t || one_of ys t)
one_of-append [] ys t = refl
one_of-append (x ∷ xs) ys t = ground (arith, one_of-append xs ys t)

-- The choice of an icon and what is previewed with it, for any lists that agree with `su`.
by_icon :
    (su im au vi ar : List Text) (shown : Icon → List Text) (t : Text)
    → every (agrees su (shown image)) im ≡ true
    → every (agrees su (shown headphones)) au ≡ true
    → every (agrees su (shown videocam)) vi ≡ true
    → every (agrees su (shown folder_zip)) ar ≡ true
    → every (λ c. one_of (shown text_snippet) c || one_of (im ++ au ++ vi ++ ar) c) su ≡ true
    → every (one_of su) (shown text_snippet) ≡ true
    → one_of su t
      ≡ one_of
          (shown (
            if one_of im t
            then image
            else if one_of au t
            then headphones
            else if one_of vi t
            then videocam
            else if one_of ar t
            then folder_zip
            else text_snippet))
          t
by_icon su im au vi ar shown t hi ha hv hr hs ht = elim (Bool-cases (one_of im t)) [
  | inl i ↦ rw i (agrees-eq su (shown image) t (case_has (agrees su (shown image)) im t hi i))
  | inr i ↦ elim (Bool-cases (one_of au t)) [
    | inl a ↦
        rw (i, a)
          (agrees-eq su (shown headphones) t (case_has (agrees su (shown headphones)) au t ha a))
    | inr a ↦ elim (Bool-cases (one_of vi t)) [
      | inl v ↦
          rw (i, a, v)
            (agrees-eq su (shown videocam) t (case_has (agrees su (shown videocam)) vi t hv v))
      | inr v ↦ elim (Bool-cases (one_of ar t)) [
        | inl r ↦
            rw (i, a, v, r)
              (agrees-eq su (shown folder_zip) t
                (case_has (agrees su (shown folder_zip)) ar t hr r))
        | inr r ↦
            rw (i, a, v, r)
              (last_eq su (shown text_snippet) (im ++ au ++ vi ++ ar) t hs ht (
                rw
                  (
                    one_of-append (im ++ au ++ vi) ar t,
                    one_of-append (im ++ au) vi t,
                    one_of-append im au t,
                    i,
                    a,
                    v,
                    r,
                  )
                  refl))
      ]
    ]
  ]
]

-- A plain file is previewed at once exactly if its extension, in lower case, is one of those that
-- are previewed among the extensions with its icon: every image but raw, three kinds of audio, two
-- of video and three of text, and no archive.
pub check_type_support-icon :
    (extension : Text)
    → check_type_support (some extension)
      ≡ one_of (previewed (icon_of_extension (some extension))) (to_lower_case extension)
unfolding check_type_support icon_of_extension eq_text agrees
check_type_support-icon extension =
    by_icon supported images audios videos archives previewed (to_lower_case extension) refl refl
      refl refl refl refl
