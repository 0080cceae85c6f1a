-- ===== src/Extract.antt =====
-- backend/app/services/extract.py: the keyword tables, `classify_impact` and `classify_platforms`.
-- Python's `re` is a parameter: `search` tells whether a pattern, with case ignored, is found in a
-- text.
use asber.Base.{Bool, List, Text, [], any, codes, if◌then◌else◌, one_of, sorted_set, ◌++◌, ◌∷◌}

unfoldable pub impact_keywords : List (Text × Text)
impact_keywords =
    (
      codes "rce",
      codes
          "remote code execution|arbitrary code execution|execute arbitrary (?:code|commands)|code injection|command injection|\\bRCE\\b|deserializ",
    )
    ∷ (
      codes "privilege_escalation",
      codes
          "privilege escalation|elevation of privilege|escalate privileges|gain (?:root|system|elevated) privileges|\\bEoP\\b|\\bLPE\\b",
    )
    ∷ (
      codes "auth_bypass",
      codes
          "authentication bypass|bypass (?:the )?authentication|missing authentication|unauthenticated (?:attacker|access)|improper authentication|auth bypass",
    )
    ∷ (codes "sqli", codes "sql injection")
    ∷ (codes "path_traversal", codes "path traversal|directory traversal")
    ∷ (codes "info_disclosure", codes "information disclosure|sensitive information")
    ∷ (codes "dos", codes "denial[- ]of[- ]service")
    ∷ (
      codes "memory_corruption",
      codes
          "use[- ]after[- ]free|buffer overflow|out-of-bounds write|heap overflow|type confusion|memory corruption",
    )
    ∷ []

unfoldable pub platform_keywords : List (Text × Text)
platform_keywords =
    (
      codes "windows",
      codes "\\bwindows\\b|win32k|\\bntlm\\b|smbv?\\d?\\b|\\blsass\\b|\\bmicrosoft\\b",
    )
    ∷ (
      codes "linux",
      codes
          "\\blinux\\b|\\bkernel\\b|\\bglibc\\b|\\bubuntu\\b|\\bdebian\\b|red ?hat|\\bsudo\\b|systemd",
    )
    ∷ (
      codes "macos",
      codes "\\bmacos\\b|\\bios\\b|\\bipados\\b|\\bwebkit\\b|\\bsafari\\b|\\bapple\\b",
    )
    ∷ (codes "android", codes "\\bandroid\\b|\\bpixel\\b")
    ∷ (
      codes "cloud",
      codes
          "\\baws\\b|amazon web services|\\bazure\\b|\\bgcp\\b|google cloud|kubernetes|\\bs3\\b|\\bentra\\b|microsoft 365|\\boffice 365\\b|\\bsaas\\b|\\bcloud\\b",
    )
    ∷ (
      codes "active_directory",
      codes
          "active directory|\\bkerberos\\b|domain controller|\\bad cs\\b|\\badcs\\b|\\bldap\\b|netlogon|group policy",
    )
    ∷ (
      codes "identity",
      codes
          "\\boauth\\b|\\bsaml\\b|\\boidc\\b|openid|\\bmfa\\b|single sign-on|\\bsso\\b|\\biam\\b|\\bentra id\\b|\\bokta\\b|identity provider",
    )
    ∷ (
      codes "web",
      codes
          "\\bweb\\b|\\bhttp\\b|\\bphp\\b|wordpress|\\bapache\\b|\\bnginx\\b|\\btomcat\\b|\\bjava\\b|cross-site|\\bxss\\b|\\bsql injection\\b|\\bcms\\b|confluence|jenkins|browser|chrome",
    )
    ∷ (
      codes "network",
      codes
          "\\brouter\\b|\\bfirewall\\b|\\bvpn\\b|\\bswitch\\b|fortinet|fortigate|fortios|\\bcisco\\b|palo alto|pan-os|juniper|ivanti|citrix|netscaler|sonicwall|f5 big-ip|zyxel|\\bgateway\\b|draytek|tp-link|d-link|\\bnetgear\\b|\\bcheck point\\b",
    )
    ∷ []

unfoldable pub cwe_impact : List (Text × List Text)
cwe_impact =
    (
      codes "rce",
      codes "CWE-94"
          ∷ codes "CWE-77"
          ∷ codes "CWE-78"
          ∷ codes "CWE-502"
          ∷ codes "CWE-95"
          ∷ codes "CWE-917"
          ∷ codes "CWE-1336"
          ∷ codes "CWE-434"
          ∷ [],
    )
    ∷ (
      codes "privilege_escalation",
      codes "CWE-269" ∷ codes "CWE-250" ∷ codes "CWE-266" ∷ codes "CWE-274" ∷ codes "CWE-648" ∷ [],
    )
    ∷ (
      codes "auth_bypass",
      codes "CWE-287"
          ∷ codes "CWE-288"
          ∷ codes "CWE-290"
          ∷ codes "CWE-294"
          ∷ codes "CWE-306"
          ∷ codes "CWE-302"
          ∷ codes "CWE-1390"
          ∷ codes "CWE-798"
          ∷ [],
    )
    ∷ (codes "sqli", codes "CWE-89" ∷ [])
    ∷ (codes "path_traversal", codes "CWE-22" ∷ codes "CWE-23" ∷ codes "CWE-35" ∷ [])
    ∷ (
      codes "memory_corruption",
      codes "CWE-416"
          ∷ codes "CWE-787"
          ∷ codes "CWE-119"
          ∷ codes "CWE-120"
          ∷ codes "CWE-122"
          ∷ codes "CWE-843"
          ∷ [],
    )
    ∷ []

unfoldable pub internet_facing_pattern : Text
internet_facing_pattern =
    codes
      "\\bvpn\\b|firewall|gateway|pan-os|globalprotect|fortios|fortigate|fortiweb|fortimanager|forticlient ems|netscaler|citrix adc|ivanti connect|pulse connect|sonicwall|big-ip|exchange server|sharepoint|confluence|jira|gitlab|jenkins|moveit|goanywhere|crushftp|wordpress|apache|nginx|tomcat|\\bweb server\\b|\\bmail server\\b|zimbra|roundcube|outlook web|\\bowa\\b|remote desktop|\\brdp\\b|\\bssh\\b|openssh|vcenter|esxi|horizon|workspace one|asa\\b|ios xe|\\brouter\\b|edge device|load balancer|screenconnect|connectwise|teamcity|veeam|papercut|citrix"

unfoldable pub ransomware_pattern : Text
ransomware_pattern = codes "\\bransomware\\b"

unfoldable pub exploitation_phrases_pattern : Text
exploitation_phrases_pattern =
    codes
      "actively exploit(?:ed|ing)|under active exploitation|in-the-wild exploitation|exploit(?:s|ed|ing|ation)[^.\\n]{0,60}?in the wild|exploitation (?:has been|was) (?:detected|observed)|zero-day|0-day|exploited as a zero|known to be exploited|attacks exploiting|(?:hackers|attackers|adversaries) (?:are )?exploit|exploit(?:ed|ing|s) (?:the )?(?:flaw|bug|vulnerabilit|CVE-)"

-- `ids.intersection(cwes)`
abbrev pub has_common : List Text → List Text → Bool
has_common ids cwes = any (λ cwe. one_of cwe ids) cwes

abbrev pub cwe_tags : List Text → List (Text × List Text) → List Text
cwe_tags cwes [] = []
cwe_tags cwes ((tag, ids) ∷ table) =
    let rest = cwe_tags cwes table in if has_common ids cwes then tag ∷ rest else rest

module _ (search : Text → Text → Bool) where
  -- `{tag for tag, rx in table.items() if rx.search(text)}`
  abbrev pub keyword_tags : Text → List (Text × Text) → List Text
  keyword_tags text [] = []
  keyword_tags text ((tag, rx) ∷ table) =
      let rest = keyword_tags text table in if search rx text then tag ∷ rest else rest

  unfoldable pub classify_impact : Text → List Text → List Text
  classify_impact text cwes =
      sorted_set (keyword_tags text impact_keywords ++ cwe_tags cwes cwe_impact)

  unfoldable pub classify_platforms : Text → List Text
  classify_platforms text = sorted_set (keyword_tags text platform_keywords)
