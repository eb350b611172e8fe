-- ===== src/PlatformTools/Template.antt =====
-- The text of the stub module in sandbox/platform_tools.py, around the parts that are filled in.
use Prim.Native.String.{String}
use otari_sandbox_container.Base.{List, [], ◌∷◌, ◌++◌, Text, codes}

-- The lines, each ended by a newline.
abbrev unlines : List String → Text
unlines [] = []
unlines (l ∷ ls) = codes l ++ (codes "\n" ++ unlines ls)

abbrev template_head : List String
template_head =
    "\"\"\"Auto-generated programmatic tool stubs. Do not edit by hand." ∷ ""
    ∷ "Each function here is a thin RPC stub that POSTs back to the platform's"
    ∷ "programmatic tool router. The router pushes the call to the agent over"
    ∷ "the active WebSocket and replies with the tool result, which becomes the"
    ∷ "return value of the stub. Errors raise :class:`ToolError`." ∷ "\"\"\"" ∷ "" ∷ "import json"
    ∷ "import urllib.error" ∷ "import urllib.request" ∷ "import uuid" ∷ "" ∷ []

abbrev template_middle : List String
template_middle =
    "" ∷ "" ∷ "" ∷ "class ToolError(Exception):"
    ∷ "    \"\"\"Raised when a programmatic tool call fails.\"\"\"" ∷ "" ∷ ""
    ∷ "def _call(name, payload):" ∷ "    body = json.dumps({"
    ∷ "        \"call_id\": uuid.uuid4().hex," ∷ "        \"name\": name,"
    ∷ "        \"input\": payload," ∷ "    }).encode(\"utf-8\")"
    ∷ "    request = urllib.request.Request(" ∷ "        _CALLBACK_URL," ∷ "        data=body,"
    ∷ "        headers={" ∷ "            \"Content-Type\": \"application/json\","
    ∷ "            \"Authorization\": \"Bearer \" + _TOKEN," ∷ "        },"
    ∷ "        method=\"POST\"," ∷ "    )" ∷ "    try:"
    ∷ "        with urllib.request.urlopen(request, timeout=_TIMEOUT) as response:"
    ∷ "            data = json.loads(response.read().decode(\"utf-8\"))"
    ∷ "    except urllib.error.HTTPError as exc:"
    ∷ "        raise ToolError(\"tool {!r} failed: HTTP {}\".format(name, exc.code)) from exc"
    ∷ "    except urllib.error.URLError as exc:"
    ∷ "        raise ToolError(\"tool {!r} unreachable: {}\".format(name, exc.reason)) from exc"
    ∷ "    except OSError as exc:"
    ∷ "        raise ToolError(\"tool {!r} transport error: {}\".format(name, exc)) from exc"
    ∷ "    if data.get(\"is_error\"):"
    ∷ "        raise ToolError(data.get(\"content\", \"unknown tool error\"))"
    ∷ "    return data.get(\"content\")" ∷ "" ∷ "" ∷ []

-- Up to the URL, and from the timeout to the definitions of the tools.
unfoldable pub module_head : Text
module_head = unlines template_head ++ codes "_CALLBACK_URL = "

unfoldable pub module_middle : Text
module_middle = unlines template_middle
