-- ===== src/Model/Urls.antt =====
-- internal/model/urls.go: the deep links of ideas and sessions.
use ideate.Common.{◌||◌, [], ◌++◌, if◌then◌else◌}
use ideate.Text.{Text, codes, is_empty}

-- IdeateURLScheme
abbrev pub ideate_url_scheme : Text
ideate_url_scheme = codes "ideate"

unfoldable pub orchestrator_url : Text
orchestrator_url = ideate_url_scheme ++ codes "://orchestrator"

unfoldable pub idea_url : Text → Text
idea_url slug = if is_empty slug then [] else ideate_url_scheme ++ codes "://ideas/" ++ slug

unfoldable pub idea_active_session_url : Text → Text
idea_active_session_url slug =
    if is_empty slug
    then []
    else ideate_url_scheme ++ codes "://ideas/" ++ slug ++ codes "/active-session"

unfoldable pub session_url : Text → Text → Text
session_url slug uuid =
    if is_empty slug || is_empty uuid
    then []
    else ideate_url_scheme ++ codes "://ideas/" ++ slug ++ codes "/sessions/" ++ uuid
