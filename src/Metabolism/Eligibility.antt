-- ===== src/Metabolism/Eligibility.antt =====
-- metabolism/eligibility.py: from a question to the storage tiers that answering it may scan.
-- `lower` is Python's `str.lower`, whose table is Unicode's.
use mirror_memory.Prelude.{
  String, ◌≡◌, refl, Bool, true, false, arith, List, [], ◌∷◌, if◌then◌else◌, any,
}
use mirror_memory.Prelude.Text.{str_eq, any_marker}
use mirror_memory.Metabolism.Tiers.{Tier, hot, warm, dormant, archived, tier_eq}

pub data Mode : Type 0 where
  current historical all_occurrences evidence experience all_mode : Mode

abbrev pub default_scan_tiers : List Tier
default_scan_tiers = hot ∷ warm ∷ dormant ∷ []

abbrev pub current_scan_tiers : List Tier
current_scan_tiers = hot ∷ warm ∷ []

unfoldable pub tiers_for_mode : Mode → List Tier
tiers_for_mode current = current_scan_tiers
tiers_for_mode _ = default_scan_tiers

unfoldable pub tier_eligible : Tier → Mode → Bool
unfolding tiers_for_mode
tier_eligible memory_tier mode = any (tier_eq memory_tier) (tiers_for_mode mode)

abbrev current_markers : List String
current_markers =
    "now" ∷ "currently" ∷ "these days" ∷ "at the moment" ∷ "right now" ∷ "现在" ∷ "目前" ∷ "当前" ∷ []

abbrev historical_markers : List String
historical_markers =
    "used to" ∷ "previously" ∷ "before" ∷ "earlier" ∷ "in the past" ∷ "formerly" ∷ "no longer"
    ∷ "used to live" ∷ "did they" ∷ "did you" ∷ "以前" ∷ "曾经" ∷ "之前" ∷ "过去" ∷ "曾经住" ∷ []

abbrev all_occurrences_markers : List String
all_occurrences_markers =
    "how many times" ∷ "list all" ∷ "all the times" ∷ "every time" ∷ "what all" ∷ "which all"
    ∷ "all the places" ∷ "all the cities" ∷ "哪些次" ∷ "所有次" ∷ "各次" ∷ "总共" ∷ []

abbrev evidence_markers : List String
evidence_markers =
    "why" ∷ "based on what" ∷ "what evidence" ∷ "according to what" ∷ "what makes you"
    ∷ "how do you know" ∷ "为什么" ∷ "根据什么" ∷ "依据" ∷ "证据" ∷ "凭什么" ∷ []

abbrev experience_markers : List String
experience_markers =
    "what happened" ∷ "what did they experience" ∷ "tell me about the time"
    ∷ "what have they been through" ∷ "发生过什么" ∷ "经历过" ∷ "经历" ∷ "怎么样了" ∷ []

abbrev enumeration_markers : List String
enumeration_markers =
    "what all" ∷ "list all" ∷ "all the" ∷ "every " ∷ "which all" ∷ "what languages" ∷ "what sports"
    ∷ "what pets" ∷ "what instruments" ∷ "what food" ∷ "what books" ∷ "what cities" ∷ "what places"
    ∷ "what countries" ∷ "what schools" ∷ "what companies" ∷ "what jobs" ∷ "what races"
    ∷ "what classes" ∷ "what workshops" ∷ "what courses" ∷ "what appointments" ∷ "what gifts"
    ∷ "what did they buy" ∷ "what did they visit" ∷ "what did they attend" ∷ "what did they read"
    ∷ "what did they watch" ∷ "what did they eat" ∷ "what hobbies" ∷ "what skills"
    ∷ "what are their" ∷ "what are the" ∷ "哪些" ∷ "所有" ∷ "各种" ∷ "列出" ∷ []

module _ (lower : String → String) where
  unfoldable pub is_enumeration_query : String → Bool
  is_enumeration_query query =
      if str_eq query "" then false else any_marker enumeration_markers (lower query)

  unfoldable pub detect_query_mode : String → Mode
  unfolding is_enumeration_query
  detect_query_mode query =
      if str_eq query ""
      then all_mode
      else if is_enumeration_query query
      then all_occurrences
      else if any_marker all_occurrences_markers (lower query)
      then all_occurrences
      else if any_marker historical_markers (lower query)
      then historical
      else if any_marker evidence_markers (lower query)
      then evidence
      else if any_marker experience_markers (lower query)
      then experience
      else if any_marker current_markers (lower query)
      then current
      else all_mode

-- An archived belief is eligible for no question at all.
tier_eligible-archived : (m : Mode) → tier_eligible archived m ≡ false
unfolding tier_eligible tier_eq
tier_eligible-archived current = refl
tier_eligible-archived _ = refl

-- What a question about the present may scan, every other question may scan.
tier_eligible-current :
    (t : Tier) (m : Mode) → tier_eligible t current ≡ true → tier_eligible t m ≡ true
unfolding tier_eligible tier_eq
tier_eligible-current t m h = ground (arith, h)

-- A question that asks for an enumeration may scan the dormant tier, whatever other markers it has.
detect_query_mode-enumeration :
    (lower : String → String) (query : String)
    → is_enumeration_query lower query ≡ true
    → tier_eligible dormant (detect_query_mode lower query) ≡ true
unfolding detect_query_mode tier_eligible tier_eq is_enumeration_query
detect_query_mode-enumeration lower query h = ground (arith, h)
