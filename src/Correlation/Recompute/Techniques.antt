-- ===== src/Correlation/Recompute/Techniques.antt =====
-- backend/app/services/correlation.py: `heuristic_techniques`, and the techniques that
-- `recompute_vulnerability` stores.
use asber.Base.{
  Bool, List, Option, Text, [], any, codes, if◌then◌else◌, is_empty, join, lower, map, none, not,
  one_of, some, sorted_set, text_eq, ◌&&◌, ◌++◌, ◌∷◌,
}
use asber.Models.{Vulnerability, AttackObject}
use asber.Correlation.Entry.{contains, or_empty}
use asber.Correlation.Merge.{is_absent}

-- `filter(None, …)`
abbrev pub given : List (Option Text) → List Text
given [] = []
given (none ∷ texts) = given texts
given (some t ∷ texts) = if is_empty t then given texts else t ∷ given texts

-- `any(k in text for k in words)`
abbrev pub mentions_any : List Text → Text → Bool
mentions_any words text = any (λ k. contains k text) words

abbrev pub reason : Bool → Text → Text → List (Text × Text)
reason condition id rationale = if condition then (id, rationale) ∷ [] else []

-- `tags & {…}`
abbrev pub has_any : List Text → List Text → Bool
has_any names tags = any (λ tag. one_of tag names) tags

unfoldable pub heuristic_techniques : Vulnerability → List Text → Bool → List (Text × Text)
unfolding join lower contains
heuristic_techniques v tags internet_facing =
    let text = lower (join (codes " ") (given (v.title ∷ v.description ∷ v.kev_name ∷ []))) in
    let rce = one_of (codes "rce") tags in
    reason
      (internet_facing
        && has_any (codes "rce" ∷ codes "auth_bypass" ∷ codes "sqli" ∷ codes "path_traversal" ∷ [])
            tags)
      (codes "T1190")
      (codes
        "Internet-facing product with RCE / auth-bypass impact → Exploit Public-Facing Application")
    ++ (reason (one_of (codes "privilege_escalation") tags) (codes "T1068")
          (codes "Privilege-escalation impact → Exploitation for Privilege Escalation")
        ++ (reason
              (rce
                && not internet_facing
                && mentions_any
                    (codes "browser"
                      ∷ codes "chrome"
                      ∷ codes "webkit"
                      ∷ codes "office"
                      ∷ codes "word"
                      ∷ codes "excel"
                      ∷ codes "reader"
                      ∷ codes "document"
                      ∷ codes "file"
                      ∷ codes "outlook"
                      ∷ codes "mail client"
                      ∷ [])
                    text)
              (codes "T1203")
              (codes
                "Client-side code execution (browser/document/app) → Exploitation for Client Execution")
            ++ (reason
                  (mentions_any
                      (codes "credential"
                        ∷ codes "password"
                        ∷ codes "ntlm hash"
                        ∷ codes "token"
                        ∷ [])
                      text
                    && has_any (codes "auth_bypass" ∷ codes "info_disclosure" ∷ []) tags)
                  (codes "T1212")
                  (codes "Credential exposure/bypass → Exploitation for Credential Access")
                ++ (reason
                      (mentions_any
                        (codes "security feature bypass"
                          ∷ codes "mark of the web"
                          ∷ codes "smartscreen"
                          ∷ [])
                        text)
                      (codes "T1211")
                      (codes "Security feature bypass → Exploitation for Defense Evasion")
                    ++ reason
                        (rce
                          && not internet_facing
                          && mentions_any
                              (codes "smb"
                                ∷ codes "rdp"
                                ∷ codes "rpc"
                                ∷ codes "remote desktop"
                                ∷ [])
                              text)
                        (codes "T1210")
                        (codes
                          "Network service RCE on internal protocol → Exploitation of Remote Services")))))

-- `a.external_id for a in attack if a.obj_type == "technique" and a.external_id`
abbrev pub explicit_ids : List AttackObject → List Text
explicit_ids [] = []
explicit_ids (a ∷ attack) =
    let rest = explicit_ids attack in
    if text_eq a.obj_type (codes "technique") && not (is_absent a.external_id)
    then or_empty a.external_id ∷ rest
    else rest

-- `sorted(techniques.items())`: an id that a document names is explicit, another is heuristic.
unfoldable pub techniques_of : List AttackObject → List (Text × Text) → List (Text × Text)
techniques_of attack heuristic =
    map
      (λ id. (id, if one_of id (explicit_ids attack) then codes "explicit" else codes "heuristic"))
      (sorted_set (explicit_ids attack ++ map (λ p. p.0) heuristic))
