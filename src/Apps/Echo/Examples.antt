-- ===== src/Apps/Echo/Examples.antt =====
-- Tests and instances for `parser_echo` and the handler.
use xerock.Base.{◌≡◌, refl, sym, subst, some, none, [], codes, inl, inr}
use xerock.Base.Run.{done}
use xerock.Json.Tree.{tree, Tree, str, object, end, field}
use xerock.Json.Fields.{Field}
use xerock.Json.Bytes.{json_2_byte_array}
use xerock.Json.Tree.Builder.{builder}
use xerock.Core.Factory.Examples.{apps, echo_entry, clock, outbox, echo-Named}
use xerock.Apps.Echo.Handler.{echo_app, EchoesTo, echo_app-EchoesTo}
use xerock.Apps.Samples.{message}
use xerock.Apps.Echo.Parser.{string, echo_type_of, parser_echo}
use xerock.Apps.Echo.Parser.Exact.{AllUnsigned}

abbrev greeting : Tree
greeting = object (field "type" (str (codes "text")) (field "data" (str (codes "hello")) end))

echo_drops_text :
    parser_echo (message greeting) ≡ done (some (record { type = string; payload = [] }))
unfolding parser_echo echo_type_of json_2_byte_array
echo_drops_text = refl

text-AllUnsigned : AllUnsigned (str (codes "hello"))
text-AllUnsigned vs (inl e) = cc e
text-AllUnsigned vs (inr e) = cc e

greeting-AllUnsigned :
    (d v : Tree)
    → Field tree.is_object (message greeting) "data" d
    → tree.member d "data" ≡ done v
    → AllUnsigned v
greeting-AllUnsigned d v f e =
    let inner : greeting ≡ d = cc f.0 in
    let value : str (codes "hello") ≡ v =
      cc (subst (λ x. tree.member x "data" ≡ done v) (sym inner) e) in
    subst AllUnsigned value text-AllUnsigned

echo_app-EchoesTo_example :
    EchoesTo clock apps greeting outbox (echo_app clock apps 1 (message greeting) outbox)
echo_app-EchoesTo_example =
    echo_app-EchoesTo clock apps 1 echo_entry (message greeting) greeting
      (record { type = string; payload = [] }) outbox echo-Named echo_drops_text refl

no_data : parser_echo (object end) ≡ done none
unfolding parser_echo
no_data = refl
