-- ===== src/Textscan.antt =====
-- strutil/textscan: the scanner of lines with its tokens, its matchers and its parser.
pub mod Tokens
pub mod More
pub mod Scanner
pub mod KeyValue
pub mod Comments
pub mod Parser
pub mod Progress
pub mod Steps
pub mod Repeat
pub mod Lines
pub mod LineMatch
pub mod PairMatch
pub mod LineRead
pub mod QuotedLines
pub mod Several
pub mod Safety
pub mod Complete
pub mod Unmatched
mod Tests
