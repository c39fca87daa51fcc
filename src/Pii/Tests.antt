-- ===== src/Pii/Tests.antt =====
-- Concrete outputs under packages/pii/redactor.py.
use nervora.Base.{
  arith, inr, true, String, false, [], ◌∷◌, ◌≡◌, ◌↔◌, none, Member, ◌==◌, refl, if◌then◌else◌,
  contains,
}
use nervora.Json.{Json, str, dict, list, cons, nil, end, entry, int, pos}
use nervora.Pii.Shadowing.{KnowsDigits, search-phone_first}
use nervora.Pii.{
  Pattern, redact, walk, walk_text, masks, redact_text, sweep, note_all, status, walk_scalar,
}
use nervora.Pii.Clean.{redact-HasNoPii, AllTexts, HasNoPii}
use nervora.Pii.Patterns.{patterns, ascii, email, iban, phone, ssn_like, credit_card}
use nervora.Pii.Regex.{
  search, search_from, sub, sub_from, match_here, match_at, match_times, match_upto, match_many,
}
use nervora.Pii.Fields.{redact-fields_iff, Labels}

-- A pattern that is the one text it finds.
abbrev number : Pattern
number = record {
  name = "ssn";
  search = λ text. text == "123-45-6789";
  sub = λ mask text. if text == "123-45-6789" then mask else text;
}

abbrev person : Json
person =
    dict (
      entry "email" (list (cons (str "ana@example.com") nil))
        (entry "note" (str "123-45-6789") end))

abbrev place_dict : Json
place_dict = dict (entry "city" (str "Berlin") end)

abbrev place : Json
place = place_dict

redact-HasNoPii_example :
    ((redact (patterns ascii) ("email" ∷ []) false place).output ≡ place)
    × AllTexts (HasNoPii ascii) place
unfolding redact walk walk_text masks redact_text sweep note_all status contains email iban phone
    ssn_like credit_card search search_from match_here match_at match_times match_upto match_many
redact-HasNoPii_example = redact-HasNoPii ascii ("email" ∷ []) false place refl

-- A number of either of these forms is taken for a phone number, which is tried first.
numbers_as_phones :
    (redact_text (patterns ascii) "ssn 123-45-6789." ≡ ("ssn ***REDACTED***.", "phone" ∷ []))
    × (redact_text (patterns ascii) "card 4111 1111 1111 1111"
        ≡ ("card ***REDACTED***", "phone" ∷ []))
    × (search (ssn_like ascii) "ssn 123-45-6789." ≡ true)
    × (search (credit_card ascii) "card 4111 1111 1111 1111" ≡ true)
unfolding redact_text sweep email iban phone ssn_like credit_card search search_from sub sub_from
    match_here match_at match_times match_upto match_many
numbers_as_phones = (refl, refl, refl, refl)

emails :
    redact_text (patterns ascii) "to ana.b@x-y.example, DE89370400440532013000"
    ≡ ("to ***REDACTED***, ***REDACTED***", "email" ∷ "iban" ∷ [])
unfolding redact_text sweep email iban phone ssn_like credit_card search search_from sub sub_from
    match_here match_at match_times match_upto match_many
emails = refl

redact-fields_iff_example :
    Member {A = String} "email" (redact (number ∷ []) ("email" ∷ []) false person).redacted_fields
    ↔ (Member {A = String} "email" ("email" ∷ []) × Labels "email" person none)
redact-fields_iff_example = redact-fields_iff "email" ("email" ∷ []) (number ∷ []) person

-- A dict under a sensitive key is masked by its own keys only.
nested_value_kept :
    (redact (number ∷ []) ("email" ∷ []) false (dict (entry "email" place_dict end))).output
    ≡ dict (entry "email" place_dict end)
unfolding redact walk walk_text masks redact_text sweep note_all contains
nested_value_kept = refl

ascii-KnowsDigits : KnowsDigits ascii
ascii-KnowsDigits = record {
  digits_are_words = λ c h. ground (arith, h);
  blank_is_space = refl;
  blank_no_digit = refl;
  dash_no_digit = refl;
}

search-phone_first_example : search (phone ascii) "card 4111 1111 1111 1111" ≡ true
unfolding search search_from match_here match_at match_times match_upto credit_card
search-phone_first_example =
    search-phone_first ascii ascii-KnowsDigits "card 4111 1111 1111 1111" (inr refl)

-- A key of a dict is not looked at, whatever it holds.
key_kept :
    (redact (patterns ascii) [] false (dict (entry "ana@example.com" (int (pos 1)) end))) ≡ record {
      output = dict (entry "ana@example.com" (int (pos 1)) end);
      found = record { redacted_fields = []; matched_patterns = [] };
    }
unfolding redact walk masks walk_scalar contains
key_kept = refl
